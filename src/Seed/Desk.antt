-- ===== src/Seed/Desk.antt =====
-- The tickets of backend/scripts/seed.py.
use supportops_ai.Common.{none, some, List, [], ◌∷◌, ◌++◌, codes}
use supportops_ai.Enums.{TicketPriority, TicketStatus}
use supportops_ai.Seed.Rows.{TicketSeed}

-- the first of them
abbrev pub earlier_tickets : List TicketSeed
earlier_tickets =
    record {
      customer_index = 0;
      subject = codes "Cannot log into account";
      description =
          codes "Customer reports repeated 'invalid credentials' errors despite "
          ++ codes "resetting their password twice today.";
      priority = TicketPriority.high;
      status = TicketStatus.new;
      assigned_to = none;
      ai_summary = none;
    }
    ∷ record {
      customer_index = 0;
      subject = codes "Billing discrepancy on invoice #4521";
      description =
          codes "Customer was charged twice for the March subscription renewal "
          ++ codes "and is requesting a refund.";
      priority = TicketPriority.medium;
      status = TicketStatus.triaged;
      assigned_to = none;
      ai_summary = none;
    }
    ∷ record {
      customer_index = 0;
      subject = codes "Feature request: bulk CSV export";
      description =
          codes "Customer wants to export all tickets and customer records as a "
          ++ codes "single CSV file for internal reporting.";
      priority = TicketPriority.low;
      status = TicketStatus.closed;
      assigned_to = some (codes "agent1@supportops.ai");
      ai_summary = some (
          codes "Confirmed bulk export is on the public roadmap; customer "
          ++ codes "notified and ticket closed as acknowledged.");
    }
    ∷ record {
      customer_index = 1;
      subject = codes "API returning intermittent 500 errors";
      description =
          codes "Customer's integration receives sporadic 500 Internal Server "
          ++ (codes "Error responses from the /v1/tickets endpoint, roughly 1 in 20 "
              ++ codes "requests.");
      priority = TicketPriority.urgent;
      status = TicketStatus.assigned;
      assigned_to = some (codes "agent1@supportops.ai");
      ai_summary = none;
    }
    ∷ record {
      customer_index = 1;
      subject = codes "Password reset email not received";
      description =
          codes "Customer requested a password reset three times but has not "
          ++ codes "received the email; spam folder confirmed empty.";
      priority = TicketPriority.medium;
      status = TicketStatus.drafted;
      assigned_to = some (codes "agent2@supportops.ai");
      ai_summary = none;
    }
    ∷ record {
      customer_index = 1;
      subject = codes "Upgrade subscription tier";
      description =
          codes "Customer wants to move from the Premium plan to Enterprise and "
          ++ codes "asked about migration steps.";
      priority = TicketPriority.low;
      status = TicketStatus.new;
      assigned_to = none;
      ai_summary = none;
    }
    ∷ record {
      customer_index = 2;
      subject = codes "Data export missing records";
      description =
          codes "Customer's nightly data export is missing roughly 200 records "
          ++ codes "compared to the in-app dashboard count.";
      priority = TicketPriority.high;
      status = TicketStatus.approval_required;
      assigned_to = some (codes "agent1@supportops.ai");
      ai_summary = none;
    }
    ∷ []

-- and the others
abbrev pub later_tickets : List TicketSeed
later_tickets =
    record {
      customer_index = 2;
      subject = codes "SSO integration broken after update";
      description =
          codes "Customer can no longer log in via their SAML identity provider "
          ++ codes "after last night's platform update.";
      priority = TicketPriority.urgent;
      status = TicketStatus.triaged;
      assigned_to = none;
      ai_summary = none;
    }
    ∷ record {
      customer_index = 2;
      subject = codes "Dashboard loading slowly";
      description =
          codes "Customer reports the analytics dashboard takes over 30 seconds "
          ++ codes "to load for accounts with large ticket volumes.";
      priority = TicketPriority.medium;
      status = TicketStatus.assigned;
      assigned_to = some (codes "agent2@supportops.ai");
      ai_summary = none;
    }
    ∷ record {
      customer_index = 3;
      subject = codes "Unable to add new team members";
      description =
          codes "Customer receives a generic 'something went wrong' error when "
          ++ codes "inviting new teammates from the admin panel.";
      priority = TicketPriority.medium;
      status = TicketStatus.approved;
      assigned_to = some (codes "agent1@supportops.ai");
      ai_summary = some (
          codes "Root cause identified as a seat-limit check bug; fix scheduled, "
          ++ codes "customer informed of timeline.");
    }
    ∷ record {
      customer_index = 3;
      subject = codes "Incorrect usage metrics displayed";
      description =
          codes "Customer's usage dashboard shows zero API calls despite active "
          ++ codes "daily traffic confirmed in server logs.";
      priority = TicketPriority.low;
      status = TicketStatus.sent;
      assigned_to = some (codes "agent2@supportops.ai");
      ai_summary = some (
          codes "Metrics pipeline delay explained to customer; dashboard "
          ++ codes "back-filled and confirmed correct.");
    }
    ∷ record {
      customer_index = 3;
      subject = codes "Critical outage affecting all users";
      description =
          codes "Customer's entire team is unable to access the platform; "
          ++ codes "status page shows no reported incident.";
      priority = TicketPriority.urgent;
      status = TicketStatus.assigned;
      assigned_to = some (codes "agent1@supportops.ai");
      ai_summary = none;
    }
    ∷ record {
      customer_index = 4;
      subject = codes "Request for GDPR data deletion";
      description =
          codes "Customer is formally requesting deletion of all personal data "
          ++ codes "associated with their account under GDPR Article 17.";
      priority = TicketPriority.high;
      status = TicketStatus.approval_required;
      assigned_to = some (codes "agent2@supportops.ai");
      ai_summary = none;
    }
    ∷ record {
      customer_index = 4;
      subject = codes "Typo in confirmation email";
      description =
          codes "Customer flagged a typo ('recieved' instead of 'received') in "
          ++ codes "the automated ticket confirmation email template.";
      priority = TicketPriority.low;
      status = TicketStatus.closed;
      assigned_to = some (codes "agent1@supportops.ai");
      ai_summary = some (codes "Typo corrected in the email template; no further action needed.");
    }
    ∷ record {
      customer_index = 4;
      subject = codes "Webhook delivery failures";
      description =
          codes "Customer's configured webhook endpoint has not received any "
          ++ codes "events in the last 48 hours despite ticket activity.";
      priority = TicketPriority.high;
      status = TicketStatus.new;
      assigned_to = none;
      ai_summary = none;
    }
    ∷ []

abbrev pub tickets : List TicketSeed
tickets = earlier_tickets ++ later_tickets
