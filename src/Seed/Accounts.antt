-- ===== src/Seed/Accounts.antt =====
-- The users and customers of backend/scripts/seed.py.
use supportops_ai.Common.{List, [], ◌∷◌, Text, codes}
use supportops_ai.Enums.{UserRole, CustomerTier}
use supportops_ai.Seed.Rows.{UserSeed, CustomerSeed}

abbrev pub admin_email : Text
admin_email = codes "admin@supportops.ai"

abbrev pub users : List UserSeed
users =
    record {
      full_name = codes "Admin";
      email = admin_email;
      password = codes "AdminPass123!";
      role = UserRole.admin;
    }
    ∷ record {
      full_name = codes "Supervisor";
      email = codes "supervisor@supportops.ai";
      password = codes "SupervisorPass123!";
      role = UserRole.supervisor;
    }
    ∷ record {
      full_name = codes "Agent One";
      email = codes "agent1@supportops.ai";
      password = codes "AgentOnePass123!";
      role = UserRole.agent;
    }
    ∷ record {
      full_name = codes "Agent Two";
      email = codes "agent2@supportops.ai";
      password = codes "AgentTwoPass123!";
      role = UserRole.agent;
    }
    ∷ []

abbrev pub customers : List CustomerSeed
customers =
    record {
      name = codes "Jane Doe";
      email = codes "jane.doe@acme.example.com";
      company = codes "Acme Corporation";
      tier = CustomerTier.enterprise;
    }
    ∷ record {
      name = codes "John Smith";
      email = codes "john.smith@globex.example.com";
      company = codes "Globex Corporation";
      tier = CustomerTier.premium;
    }
    ∷ record {
      name = codes "Bruce Wayne";
      email = codes "bruce.wayne@wayne.example.com";
      company = codes "Wayne Enterprises";
      tier = CustomerTier.enterprise;
    }
    ∷ record {
      name = codes "Tony Stark";
      email = codes "tony.stark@stark.example.com";
      company = codes "Stark Industries";
      tier = CustomerTier.enterprise;
    }
    ∷ record {
      name = codes "Alice Johnson";
      email = codes "alice.johnson@umbrella.example.com";
      company = codes "Umbrella Corporation";
      tier = CustomerTier.standard;
    }
    ∷ []
