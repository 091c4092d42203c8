-- ===== src/Agents/Respond.antt =====
-- The endings of the tool and of the agents: backend/tools/knowledge_base.py and
-- backend/agents/base.py.
use supportops_ai.Common.{
  ◌≡◌, refl, true, ◌++◌, codes, inl, inr, Option, none, some, List, [], ◌∷◌, Text,
}
use supportops_ai.Python.{Outcome, ok, raised, message, call_cases}
use supportops_ai.Python.Returns.{Returns, returns_rules}
use supportops_ai.Redis.{RedisFails}
use supportops_ai.Cache.Degrades.{get-Returns, set-Returns}
use supportops_ai.Knowledge.{KnowledgeArticle}
use supportops_ai.Services.{Services, Profile, CrewOutput, structured, unstructured}
use supportops_ai.Agents.{
  AgentResult, result_of_output, result_of_failure, answer_search, try_search, answer_cached,
  run_tool, retrieve_context, task_description, generate, respond,
}

module _ {W : Type 0} (s : Services W) where
  answer_search-Returns :
      (k : Text) (o : Option (List KnowledgeArticle))
      → RedisFails s.redis
      → Returns (answer_search s k o)
  unfolding answer_search
  answer_search-Returns k none fails = search returns_rules
  answer_search-Returns k (some []) fails = search (returns_rules, set-Returns)
  answer_search-Returns k (some (a ∷ l)) fails = search (returns_rules, set-Returns)

  try_search-Returns : (c q : Text) → Returns (try_search s c q)
  unfolding try_search
  try_search-Returns c q = search returns_rules

  answer_cached-Returns :
      (c q k : Text) (o : Option Text) → RedisFails s.redis → Returns (answer_cached s c q k o)
  unfolding answer_cached
  answer_cached-Returns c q k none fails =
      search (returns_rules, try_search-Returns, answer_search-Returns)
  answer_cached-Returns c q k (some t) fails = search returns_rules

  -- Where Redis raises only `RedisError`, the knowledge-base tool returns a text, also when the
  -- search of the database raises.
  pub run_tool-Returns : (c q : Text) → RedisFails s.redis → Returns (run_tool s c q)
  unfolding run_tool
  run_tool-Returns c q fails = search (returns_rules, get-Returns, answer_cached-Returns)

  pub retrieve_context-Returns : (a : Profile) (t : Text) → Returns (retrieve_context s a t)
  unfolding retrieve_context
  retrieve_context-Returns a t = search returns_rules

  generate-Returns : (a : Profile) (c d : Text) → Returns (generate s a c d)
  unfolding generate
  generate-Returns a c d = search returns_rules

  -- Where the task and the crew can be constructed, an agent returns a result, whatever the model,
  -- the database or Redis raise.
  pub respond-Returns :
      (a : Profile) (t : Text) → ((d : Text) → Returns (s.new_crew a d)) → Returns (respond s a t)
  unfolding respond
  respond-Returns a t crew = search (returns_rules, retrieve_context-Returns, generate-Returns)

  -- What the customer's answer is made of. The output of a task that fits its schema is taken as it
  -- is; any other output is sent as its text, for review; and where the crew raises, the apology that
  -- promises a human agent is, with the text of the exception, for review.
  abbrev pub Reply : Text → Outcome CrewOutput → AgentResult → Type 0
  Reply context (ok (structured text unresolved)) r =
      (r.response ≡ text)
      × (r.unresolved ≡ unresolved)
      × (r.error ≡ none)
      × (r.retrieved_context ≡ context)
  Reply context (ok (unstructured text)) r =
      (r.response ≡ text)
      × (r.unresolved ≡ true)
      × (r.error ≡ none)
      × (r.retrieved_context ≡ context)
  Reply context (raised e) r =
      (r.response ≡ (
        codes "We're sorry -- we weren't able to generate an automated response for this "
        ++ codes "ticket right now. It has been queued for a human support agent to review."))
      × (r.unresolved ≡ true)
      × (r.error ≡ some (message e))
      × (r.retrieved_context ≡ context)

  output-Reply : (c : Text) (o : CrewOutput) → Reply c (ok o) (result_of_output c o)
  unfolding result_of_output
  output-Reply c (structured text unresolved) = (refl, refl, refl, refl)
  output-Reply c (unstructured text) = (refl, refl, refl, refl)

  generate-Reply :
      (a : Profile) (c d : Text) (w : W)
      → (r : AgentResult) × (generate s a c d w ≡ (ok r, (s.kickoff a d w).1))
        × Reply c (s.kickoff a d w).0 r
  unfolding generate result_of_failure
  generate-Reply a c d w = elim (call_cases (s.kickoff a d w)) [
    | inl (output, w', e) ↦ (result_of_output c output, rw e refl, rw e (output-Reply c output))
    | inr (x, w', e) ↦ (result_of_failure c x, rw e refl, rw e (refl, refl, refl, refl))
  ]

  -- Where the task and the crew can be constructed, an agent retrieves its context, builds the crew
  -- on the description with that context, and runs it once; it returns whatever the crew does, in
  -- the world that the crew left. The result has the retrieved context, and the crew's text and
  -- signal, its bare text with the signal `unresolved`, or the apology with that signal and the
  -- message of the crew's exception.
  pub respond-Reply :
      (a : Profile) (t : Text) (w : W)
      → ((d : Text) → Returns (s.new_crew a d))
      → (context : Text) × (w' w'' : W) × (r : AgentResult) × (retrieve_context s a t w
          ≡ (ok context, w'))
        × (s.new_crew a (task_description t context) w' ≡ (ok tt, w''))
        × (respond s a t w ≡ (ok r, (s.kickoff a (task_description t context) w'').1))
        × Reply context (s.kickoff a (task_description t context) w'').0 r
  unfolding respond
  respond-Reply a t w crew =
      let (context, w', e) = (retrieve_context-Returns a t).at w in
      let (_, w'', e') = (crew (task_description t context)).at w' in
      let (r, made, reply) = generate-Reply a context (task_description t context) w'' in
      (context, w', w'', r, e, e', rw e (rw e' made), reply)
