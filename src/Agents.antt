-- ===== src/Agents.antt =====
-- The specialist agents and the knowledge-base tool: backend/agents/base.py and
-- backend/tools/knowledge_base.py.
mod Profiles
pub mod Respond
pub use Profiles.*
use supportops_ai.Common.{
  ℕ, Bool, true, false, Option, none, some, List, [], ◌∷◌, ◌++◌, map, Text, codes,
}
use supportops_ai.Str.{join, concat}
use supportops_ai.Python.{Exn, message, Exec, pure, try_except, ◌>>=◌, ◌>>◌}
use supportops_ai.Json.{Json, str}
use supportops_ai.Cache
use supportops_ai.Cache.{normalize_text, build_cache_key}
use supportops_ai.Bridge.{in_worker}
use supportops_ai.Knowledge.{KnowledgeArticle, rank_by_keyword_overlap}
use supportops_ai.Services.{Services, Profile, CrewOutput, structured, unstructured, with_session}

abbrev pub no_results_message : Text
no_results_message = codes "No relevant knowledge-base articles were found."

abbrev pub unavailable_message : Text
unavailable_message = codes "Knowledge-base lookup is unavailable right now."

abbrev pub max_results : ℕ
max_results = 3

abbrev pub knowledge_cache_prefix : Text
knowledge_cache_prefix = codes "knowledge_base"

abbrev pub fallback_response : Text
fallback_response =
    codes "We're sorry -- we weren't able to generate an automated response for this "
    ++ codes "ticket right now. It has been queued for a human support agent to review."

-- `"\n\n".join(f"{article.title}: {article.content}" for article in articles)`
unfoldable pub render_articles : List KnowledgeArticle → Text
render_articles articles =
    join (10 ∷ 10 ∷ []) (map (λ a. a.title ++ (codes ": " ++ a.content)) articles)

-- `SpecialistAgent._task_description`
unfoldable pub task_description : Text → Text → Text
task_description ticket_text retrieved_context = concat (
    codes "A customer submitted this support ticket:\n"
    ∷ codes "\"\"\"\n"
    ∷ ticket_text
    ∷ codes "\n\"\"\"\n\n"
    ∷ codes "Relevant knowledge-base context:\n"
    ∷ codes "\"\"\"\n"
    ∷ retrieved_context
    ∷ codes "\n\"\"\"\n\n"
    ∷ codes "Write a helpful, professional, and concise reply grounded only in "
    ∷ codes "the ticket text and the knowledge-base context above.\n\n"
    ∷ codes "Also set `unresolved` to true if any of the following applies, "
    ∷ codes "false otherwise:\n"
    ∷ codes "- the knowledge-base context above is insufficient to answer\n"
    ∷ codes "- you would be guessing rather than answering from the ticket "
    ∷ codes "text and context\n"
    ∷ codes "- the request requires human judgment or expertise you don't have\n"
    ∷ codes "You are not deciding whether a human reviews this ticket -- you "
    ∷ codes "are only reporting whether you were able to resolve it."
    ∷ [])

pub record AgentResult : Type 0 where
  pub response : Text
  pub retrieved_context : Text
  pub unresolved : Bool
  pub error : Option Text

-- what the structured output, or the lack of one, becomes
unfoldable pub result_of_output : Text → CrewOutput → AgentResult
result_of_output retrieved_context (structured response unresolved) = record {
  response = response;
  retrieved_context = retrieved_context;
  unresolved = unresolved;
  error = none;
}
result_of_output retrieved_context (unstructured output) = record {
  response = output;
  retrieved_context = retrieved_context;
  unresolved = true;
  error = none;
}

unfoldable pub result_of_failure : Text → Exn → AgentResult
result_of_failure retrieved_context exc = record {
  response = fallback_response;
  retrieved_context = retrieved_context;
  unresolved = true;
  error = some (message exc);
}

-- a cached text counts, any other cached value does not
abbrev pub cached_text : Option Json → Option Text
cached_text (some (str t)) = some t
cached_text _ = none

module _ {W : Type 0} (s : Services W) where
  -- `KnowledgeArticleRepository.search`, in a session
  unfoldable pub search : Text → Text → Exec W (List KnowledgeArticle)
  search category query = with_session s (do
    candidates ← s.select_articles category
    pure (rank_by_keyword_overlap candidates query max_results))

  abbrev pub knowledge_ttl : ℕ
  knowledge_ttl = s.settings.redis_knowledge_cache_ttl_seconds

  -- the answer to a search that succeeded or, by `none`, failed
  unfoldable pub answer_search : Text → Option (List KnowledgeArticle) → Exec W Text
  answer_search cache_key none = pure unavailable_message
  answer_search cache_key (some []) = do
    in_worker (Cache.set s.redis s.json knowledge_ttl cache_key (str no_results_message))
    pure no_results_message
  answer_search cache_key (some (a ∷ articles)) = do
    in_worker
        (Cache.set s.redis s.json knowledge_ttl cache_key (str (render_articles (a ∷ articles))))
    pure (render_articles (a ∷ articles))

  -- `except Exception`: the search failed
  unfoldable pub try_search : Text → Text → Exec W (Option (List KnowledgeArticle))
  try_search category query =
      try_except (do articles ← in_worker (search category query); pure (some articles))
        (λ _. pure none)

  unfoldable pub answer_cached : Text → Text → Text → Option Text → Exec W Text
  answer_cached category query cache_key (some text) = pure text
  answer_cached category query cache_key none = do
    found ← try_search category query
    answer_search cache_key found

  -- `KnowledgeBaseSearchTool._run`
  unfoldable pub run_tool : Text → Text → Exec W Text
  run_tool category query =
      let cache_key =
        build_cache_key s.sha256_hex knowledge_cache_prefix
          (category ∷ normalize_text query ∷ []) in
      do
        cached ← in_worker (Cache.get s.redis s.json knowledge_ttl cache_key)
        answer_cached category query cache_key (cached_text cached)

  -- `SpecialistAgent._retrieve_context`; an empty text stays empty
  unfoldable pub retrieve_context : Profile → Text → Exec W Text
  retrieve_context agent ticket_text =
      try_except (run_tool agent.category ticket_text) (λ _. pure [])

  -- the kickoff of the crew, with what its output or its exception becomes
  unfoldable pub generate : Profile → Text → Text → Exec W AgentResult
  generate agent retrieved_context description =
      try_except
        (do output ← s.kickoff agent description; pure (result_of_output retrieved_context output))
        (λ exc. pure (result_of_failure retrieved_context exc))

  -- `SpecialistAgent.respond`, after the constructor
  unfoldable pub respond : Profile → Text → Exec W AgentResult
  respond agent ticket_text = do
    retrieved_context ← retrieve_context agent ticket_text
    let description = task_description ticket_text retrieved_context
    s.new_crew agent description
    generate agent retrieved_context description
