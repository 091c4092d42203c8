-- ===== src/Seed/Database.antt =====
-- What backend/scripts/seed.py calls and does not implement: a database session, the environment and
-- `hash_password`, as one parameter, and what the script relies on.
use supportops_ai.Common.{any, ◌≡◌, Bool, true, false, Option, none, some, List, ◌++◌, Text}
use supportops_ai.Python.{Exec, Exn, Uuid, ok, raised}
use supportops_ai.Python.Keeps.{Keeps}
use supportops_ai.Seed.Rows.{Row, is_user, is_article}

pub record Database (W : Type 0) : Type 0 where
  -- `settings.environment` and `os.environ.get("ALLOW_SEED_IN_PRODUCTION")`
  pub environment : Text
  pub allow_seed_in_production : Option Text
  pub hash_password : Text → Exec W Text
  -- `async_session_factory()` and the end of its `async with` block
  pub open_session : Exec W (Unit {0})
  pub close_session : Exec W (Unit {0})
  -- `select(User.id).where(User.email == email)` and `select(KnowledgeArticle.id).limit(1)`, each with
  -- `scalar_one_or_none`
  pub user_id_by_email : Text → Exec W (Option Uuid)
  pub any_article_id : Exec W (Option Uuid)
  -- `session.add_all(rows)`; `session.add(row)` adds one
  pub add_all : List Row → Exec W (Unit {0})
  pub flush : Exec W (Unit {0})
  pub commit : Exec W (Unit {0})
  pub rollback : Exec W (Unit {0})

abbrev pub is_found : Option Uuid → Bool
is_found none = false
is_found (some _) = true

-- What a transactional database documents. `stored w` are the committed rows, and `visible w` the
-- rows that the open session sees, with those that it has added and not committed.
pub record DatabaseLaws {W : Type 0} (db : Database W) (stored visible : W → List Row)
    : Type 0 where
  pub hash_keeps : (p : Text) → Keeps stored (db.hash_password p)
  pub hash_sees : (p : Text) → Keeps visible (db.hash_password p)
  pub open_keeps : Keeps stored db.open_session
  pub open_sees : (w w' : W) → db.open_session w ≡ (ok tt, w') → visible w' ≡ stored w'
  pub close_keeps : Keeps stored db.close_session
  pub user_keeps : (e : Text) → Keeps stored (db.user_id_by_email e)
  pub user_sees : (e : Text) → Keeps visible (db.user_id_by_email e)
  pub user_answers :
      (e : Text) (w w' : W) (o : Option Uuid)
      → db.user_id_by_email e w ≡ (ok o, w')
      → is_found o ≡ any (is_user e) (visible w)
  pub article_keeps : Keeps stored db.any_article_id
  pub article_sees : Keeps visible db.any_article_id
  pub article_answers :
      (w w' : W) (o : Option Uuid)
      → db.any_article_id w ≡ (ok o, w')
      → is_found o ≡ any is_article (visible w)
  pub add_keeps : (rows : List Row) → Keeps stored (db.add_all rows)
  pub add_sees :
      (rows : List Row) (w w' : W)
      → db.add_all rows w ≡ (ok tt, w')
      → visible w' ≡ visible w ++ rows
  pub flush_keeps : Keeps stored db.flush
  pub flush_sees : Keeps visible db.flush
  -- a commit stores what the session sees, or raises and stores nothing
  pub commit_stores : (w w' : W) → db.commit w ≡ (ok tt, w') → stored w' ≡ visible w
  pub commit_fails : (e : Exn) (w w' : W) → db.commit w ≡ (raised e, w') → stored w' ≡ stored w
  pub rollback_keeps : Keeps stored db.rollback
