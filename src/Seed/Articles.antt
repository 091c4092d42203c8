-- ===== src/Seed/Articles.antt =====
-- The knowledge articles of backend/scripts/seed.py.
use supportops_ai.Common.{List, [], ◌∷◌, ◌++◌, codes}
use supportops_ai.Seed.Rows.{KnowledgeArticleSeed}

abbrev pub knowledge_articles : List KnowledgeArticleSeed
knowledge_articles =
    record {
      category = codes "billing";
      title = codes "Refund Policy";
      content =
          codes "Refunds for duplicate or erroneous charges are issued to the original "
          ++ (codes "payment method within 5-7 business days. Subscription refunds for "
              ++ codes "cancellations made within 14 days of renewal are prorated automatically.");
    }
    ∷ record {
      category = codes "billing";
      title = codes "Understanding Your Invoice";
      content =
          codes "Each invoice lists the billing period, plan tier, prorated charges for "
          ++ (codes "mid-cycle upgrades, and any applicable tax. Line items marked 'usage' "
              ++ codes "reflect metered API calls beyond the plan's included quota.");
    }
    ∷ record {
      category = codes "billing";
      title = codes "Upgrading or Downgrading Your Plan";
      content =
          codes "Plan changes take effect immediately; upgrades are billed pro-rata for "
          ++ (codes "the remainder of the current cycle, downgrades take effect at the next "
              ++ codes "renewal so no service is lost mid-cycle.");
    }
    ∷ record {
      category = codes "technical";
      title = codes "Troubleshooting Login Failures";
      content =
          codes "Repeated 'invalid credentials' errors after a password reset usually "
          ++ (codes "mean a cached session token; ask the customer to fully sign out, clear "
              ++ codes "cookies for the app domain, and sign back in with the new password.");
    }
    ∷ record {
      category = codes "technical";
      title = codes "Diagnosing Intermittent API 500 Errors";
      content =
          codes "Sporadic 500s on a small percentage of requests are most often caused "
          ++ (codes "by a transient upstream timeout; check the request ID against the API "
              ++ codes "status page and retry with exponential backoff before escalating.");
    }
    ∷ record {
      category = codes "technical";
      title = codes "SSO / SAML Login Issues After a Platform Update";
      content =
          codes "After a platform update, SAML logins can fail if the identity "
          ++ (codes "provider's cached metadata is stale; ask the customer's admin to "
              ++ codes "re-fetch the SP metadata URL and re-upload it to their IdP.");
    }
    ∷ record {
      category = codes "account";
      title = codes "Adding and Removing Team Members";
      content =
          codes "New teammates are invited from Settings > Team > Invite. A generic "
          ++ (codes "'something went wrong' error when inviting usually means the "
              ++ codes "account has hit its seat limit -- check the plan's seat count first.");
    }
    ∷ record {
      category = codes "account";
      title = codes "GDPR Data Deletion Requests";
      content =
          codes "A formal Article 17 deletion request must be routed to the privacy "
          ++ (codes "team and requires supervisor approval before execution; acknowledge "
              ++ codes "receipt to the customer and confirm the 30-day completion window.");
    }
    ∷ record {
      category = codes "account";
      title = codes "Resetting a Forgotten Password";
      content =
          codes "If a password-reset email never arrives, confirm the address on file "
          ++ (codes "is correct and ask the customer to check spam; the reset link expires "
              ++ codes "after 1 hour, so a fresh request is needed if it was delayed.");
    }
    ∷ record {
      category = codes "general";
      title = codes "Support Response Time Expectations";
      content =
          codes "Standard-tier tickets are addressed within 2 business days, Premium "
          ++ (codes "within 1 business day, and Enterprise within 4 business hours; urgent "
              ++ codes "priority tickets are triaged immediately regardless of tier.");
    }
    ∷ record {
      category = codes "general";
      title = codes "Requesting a New Feature";
      content =
          codes "Feature requests are logged to the product roadmap for review; there "
          ++ (codes "is no guaranteed timeline, but customers can be told a request has "
              ++ codes "been recorded and to watch the changelog for updates.");
    }
    ∷ []
