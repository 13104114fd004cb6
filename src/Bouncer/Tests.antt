-- ===== src/Bouncer/Tests.antt =====
-- The quota of two proposals, on a sequence of calls.
use chuvar.Prelude.{Str, codes, ◌≡◌, List, [], ◌∷◌, arith, str_eq}
use chuvar.Store.Types.{Time}
use chuvar.Bouncer.Quota.Counting.{passed, passed_lem}
use chuvar.Bouncer.Quota.{count_at, truncate}

abbrev amy : Str
amy = codes "amy"

abbrev bob : Str
bob = codes "bob"

-- Four calls of amy, three of them in the window from 60 to 120, and one of bob in that window.
abbrev calls : List (Time × Str)
calls = (61, amy) ∷ (70, bob) ∷ (119, amy) ∷ (60, amy) ∷ (120, amy) ∷ []

passed_lem_example : passed 2 60 amy 60 calls [] ≡ 2
unfolding count_at truncate str_eq
passed_lem_example = passed_lem 2 60 (ground arith) (ground arith) amy 60 calls []
