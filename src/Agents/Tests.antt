-- ===== src/Agents/Tests.antt =====
-- Requests of an agent to a small API.
use chuvar.Prelude.{
  codes, ◌≡◌, refl, none, some, List, [], ◌∷◌, ◌++◌, cut, split_on, ok, pos, ℕ, str_eq, has_prefix,
}
use chuvar.Store.Types.{Fact, facts_depth}
use chuvar.Store.Facts.{
  read_at, search_facts, to_vector_param, read_rows, is_candidate, tags_visible, tag_visible,
  scope_prefixes, like_escape, is_special,
}
use chuvar.Store.Fixtures.{engine, db, amy, name_scope, stored_fact}
use chuvar.Auth.Types.{AgentTokenRow}
use chuvar.Api.Types.{Request}
use chuvar.Api.Fixtures.{plain_store, fresh_db, at}
use chuvar.Bouncer.{
  World, default_rate_limit, default_rate_limit_window, passthrough, in_auth, all_valid,
}
use chuvar.Scope.{
  validate, validate_segments, segment_pattern, is_segment_byte, split, missing, missing_from,
  any_covers, covers, op_covers,
}
use chuvar.Store.Tables.{find, update_where}
use chuvar.Store.Grants.{
  granted_scope_depths, gives_scopes, unexpired, granted_from, add_granted, list_grant_scopes,
  depth_or_empty,
}
use chuvar.Store.Depth.{
  effective_depth, least_rank, tag_rank, depth_rank, depth_rank_index, index_from, depth_name,
  raise_to, lower_to,
}
use chuvar.Auth.Action.{◌>>=◌, or_else}
use chuvar.Auth.AgentTokens.{authenticate_agent_token, active_agent_with_hash}
use chuvar.Auth.Tokens.{hash_token}
use chuvar.Api.Types.{or_deny}
use chuvar.Api.Factors.{bearer_token}
use chuvar.Agents.{
  agent_handler, require_agent_auth, agent_search, query_vector, search_now, read_facts, AgentApi,
  AgentCall, search, proposals, grant_requests, grants, whoami, searched, serve_agent, serve_agents,
}
use chuvar.Agents.Staging.{Staged, serve_agents-Staged}
use chuvar.Agents.Reading.{agent_read_lem}
use chuvar.Agents.Types.{
  SearchRequest, exceeds, search_limit, scope_strs_from, granted_scope_strs, found,
}

abbrev agent_api : AgentApi ℕ (List ℕ)
agent_api = record {
  tokens = plain_store;
  bouncer = record {
    engine = engine;
    embedder = some (λ text. some []);
    classifier = some passthrough;
    rate_limit = default_rate_limit;
    rate_limit_window = default_rate_limit_window;
  };
  marshal_read = λ reads. [];
}

-- A token of amy with the plaintext "agent".
abbrev amy_token : AgentTokenRow
amy_token = record {
  id = 2;
  subject = amy;
  label = codes "laptop";
  token_hash = codes "agent";
  created_at = 10;
  last_used_at = none;
  revoked_at = none;
}

abbrev world : World (List ℕ)
world = record { store = db; auth = record fresh_db { agent_tokens = amy_token ∷ [] }; limits = [] }

abbrev post : Request
post = record {
  ctx = at 500 30;
  method = codes "POST";
  path = codes "/agent/search";
  authorization = codes "Bearer agent";
  totp_code = [];
  assertion_header = [];
}

abbrev query : SearchRequest
query = record { query = codes "tea"; requested_scopes = name_scope ∷ []; limit = pos 5 }

abbrev sequence : List (Request × AgentCall)
sequence =
    (post, search (some query))
    ∷ (
      post,
      proposals (
          some (record {
            content = codes "likes tea";
            proposed_scopes = name_scope ∷ [];
            target_fact_id = some 7;
          })),
    )
    ∷ (
      post,
      grant_requests (
          some (record {
            requested_scopes = name_scope ∷ [];
            depth = codes "full";
            ttl_seconds = pos 60;
            justification = [];
          })),
    )
    ∷ (post, grants)
    ∷ (post, whoami)
    ∷ []

serve_agents-Staged_example : Staged world (serve_agents agent_api sequence world)
serve_agents-Staged_example = serve_agents-Staged agent_api sequence world

abbrev shown : Fact
shown = read_at engine db stored_fact facts_depth

search_run : serve_agent agent_api post (search (some query)) world ≡ (
  ok (searched (found (shown ∷ []))),
  (serve_agent agent_api post (search (some query)) world).1,
)
unfolding serve_agent agent_handler str_eq require_agent_auth ◌>>=◌ or_deny bearer_token has_prefix
    or_else in_auth authenticate_agent_token active_agent_with_hash hash_token find update_where
    agent_search exceeds all_valid validate validate_segments segment_pattern is_segment_byte split
    cut split_on granted_scope_depths gives_scopes unexpired granted_from add_granted
    list_grant_scopes depth_or_empty granted_scope_strs scope_strs_from missing missing_from
    query_vector search_now read_facts search_limit search_facts to_vector_param read_rows
    effective_depth least_rank tag_rank depth_rank depth_rank_index index_from depth_name raise_to
    lower_to is_candidate tags_visible tag_visible scope_prefixes like_escape any_covers covers
    op_covers is_special
search_run = refl

agent_read_lem_example :
    codes "Bearer agent"
    ≡ codes "Bearer "
      ++ (agent_read_lem agent_api post (some query) (shown ∷ []) world _ search_run).0
agent_read_lem_example =
    (agent_read_lem agent_api post (some query) (shown ∷ []) world _ search_run).2
