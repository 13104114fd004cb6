-- ===== src/Store/Tests/Histories.antt =====
-- The theorems on sequences of calls at concrete inputs.
use chuvar.Prelude.{ℕ, codes, none, some, List, [], ◌∷◌, pos}
use chuvar.Store.Types.{memory, full}
use chuvar.Store.History.{GrantsEvolve, SameAuthority}
use chuvar.Store.History.Runs.{
  Op, create, revoke, renew, request, propose, perform_all, grants_evolve, agents_stage,
}
use chuvar.Store.Fixtures.{engine, at_1000, amy, bob, identity, name_scope, db, held}

abbrev calls : List (Op ℕ)
calls =
    revoke at_1000 1 bob
    ∷ renew at_1000 1 (pos 60) bob
    ∷ create at_1000 amy (identity ∷ []) memory full none bob
    ∷ []

grants_evolve_example : GrantsEvolve db (perform_all engine calls db)
grants_evolve_example = grants_evolve engine calls db

abbrev staged : List (Op ℕ)
staged =
    request at_1000 amy (identity ∷ []) memory full none []
    ∷ propose at_1000 amy (codes "likes milk") (name_scope ∷ []) [] (some 7) held
    ∷ []

agents_stage_example : SameAuthority db (perform_all engine staged db)
agents_stage_example = agents_stage engine staged db (tt, (tt, tt))
