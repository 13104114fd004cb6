-- ===== src/Approver/Tests.antt =====
-- The theorems on the approver's list at concrete inputs.
use chuvar.Prelude.{Str, codes, List, [], ◌∷◌, pos}
use chuvar.Approver.{staged_diff_added, staged_diff_resolved, grant_request_added, new_model}
use chuvar.Approver.Selection.{Input, event, move, InRange, respond_all, respond_all-InRange}

-- A diff and a request, each as its id.
abbrev own_id : Str → Str
own_id s = s

abbrev first_id : Str
first_id = codes "d1"

abbrev second_id : Str
second_id = codes "r2"

abbrev inputs : List (Input own_id own_id)
inputs =
    event (staged_diff_added first_id)
    ∷ event (grant_request_added second_id)
    ∷ move (pos 3)
    ∷ event (staged_diff_resolved second_id)
    ∷ []

respond_all-InRange_example : InRange own_id own_id (respond_all own_id own_id inputs new_model)
respond_all-InRange_example = respond_all-InRange own_id own_id inputs
