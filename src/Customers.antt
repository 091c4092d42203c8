-- ===== src/Customers.antt =====
-- The list of customers: backend/api/routes/customers.py, backend/database/repositories/customer.py and
-- backend/schemas/customer.py.
pub mod Listed
use supportops_ai.Common.{ℕ, Option, List, Text, map, length}
use supportops_ai.Python.{Uuid, Time, Exec, ◌>>=◌, ◌>>◌, pure}
use supportops_ai.Enums.{CustomerTier}
use supportops_ai.Models.{Customer, User}
use supportops_ai.Services.{Services, with_session}
use supportops_ai.Auth.{Tokens, get_current_active_user}

pub record CustomerResponse : Type 0 where
  pub customer_id : Uuid
  pub name : Text
  pub email : Text
  pub company : Option Text
  pub tier : CustomerTier
  pub created_at : Time

pub record CustomerListResponse : Type 0 where
  pub items : List CustomerResponse
  pub total : ℕ

-- `select(Customer).order_by(Customer.created_at.desc()).limit(limit)`
pub record CustomerSelect (W : Type 0) : Type 0 where
  pub newest : ℕ → Exec W (List Customer)

-- `limit: int = 100`
abbrev pub default_limit : ℕ
default_limit = 100

abbrev pub response_of : Customer → CustomerResponse
response_of customer = record {
  customer_id = customer.id;
  name = customer.name;
  email = customer.email;
  company = customer.company;
  tier = customer.tier;
  created_at = customer.created_at;
}

module _ {W : Type 0} (s : Services W) (t : Tokens W) (q : CustomerSelect W) where
  -- `CustomerRepository.list_all`
  unfoldable pub list_all : Exec W (List Customer)
  list_all = q.newest default_limit

  -- the body of `list_customers`
  unfoldable pub list_customers : Exec W CustomerListResponse
  unfolding list_all
  list_customers = with_session s list_all >>= λ customers.
      let items = map response_of customers in pure (record { items = items; total = length items })

  -- the route, whose user is active
  unfoldable pub list_customers_route : Text → Exec W CustomerListResponse
  unfolding list_customers
  list_customers_route token = get_current_active_user s t token >> list_customers
