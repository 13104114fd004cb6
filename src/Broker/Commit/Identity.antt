-- ===== src/Broker/Commit/Identity.antt =====
-- What the scanner for author and committer lines accepts.
use chuvar.Prelude.{
  Str, Bool, true, not, ◌&&◌, ◌≡◌, ◌≢◌, refl, ap, subst, ◌∙◌, ◌↔◌, inl, inr, Option, none, some, [],
  ◌∷◌, ◌++◌, arith, is_empty, all, All, all-All, All-all, if◌then◌else◌, cut, cut-some, cut-append,
  Lacks, Option-cases, not_empty,
}
use chuvar.Broker.Commit.{
  is_digit, is_name_byte, is_email_byte, is_zone, without_last_space, without_first_space,
  identity_email,
}

-- A line "Name <email> seconds zone".
pub record IsIdentity (line email : Str) : Type 0 where
  pub name : Str
  pub seconds : Str
  pub zone : Str
  pub reads : line ≡ (name ++ b' ' ∷ []) ++ b'<' ∷ (email ++ b'>' ∷ b' ' ∷ (seconds ++ b' ' ∷ zone))
  pub named : name ≢ []
  pub name_bytes : All (λ c. is_name_byte c ≡ true) name
  pub email_bytes : All (λ c. is_email_byte c ≡ true) email
  pub timed : seconds ≢ []
  pub digits : All (λ c. is_digit c ≡ true) seconds
  pub zoned : is_zone zone ≡ true

last_space_some : (s r : Str) → without_last_space s ≡ some r → s ≡ r ++ b' ' ∷ []
unfolding without_last_space
last_space_some [] r h = absurd (cc h)
last_space_some (c ∷ []) r h = ground arith
last_space_some (c ∷ d ∷ s) r h = elim (Option-cases (without_last_space (d ∷ s))) [
  | inl e ↦ absurd (ground arith)
  | inr (x, e) ↦ ground (arith, last_space_some (d ∷ s) x e)
]

last_space-append : (r : Str) → without_last_space (r ++ b' ' ∷ []) ≡ some r
unfolding without_last_space
last_space-append [] = refl
last_space-append (c ∷ []) = refl
last_space-append (c ∷ d ∷ r) = rw (last_space-append (d ∷ r)) refl

first_space_some : (s r : Str) → without_first_space s ≡ some r → s ≡ b' ' ∷ r
unfolding without_first_space
first_space_some [] r h = absurd (cc h)
first_space_some (c ∷ s) r h = ground arith

name-Lacks : (s : Str) → All (λ c. is_name_byte c ≡ true) s → Lacks b'<' s
unfolding is_name_byte
name-Lacks [] h = tt
name-Lacks (c ∷ s) h = (ground arith, name-Lacks s h.1)

email-Lacks : (s : Str) → All (λ c. is_email_byte c ≡ true) s → Lacks b'>' s
unfolding is_email_byte is_name_byte
email-Lacks [] h = tt
email-Lacks (c ∷ s) h = (ground arith, email-Lacks s h.1)

digits-Lacks : (s : Str) → All (λ c. is_digit c ≡ true) s → Lacks b' ' s
digits-Lacks [] h = tt
digits-Lacks (c ∷ s) h = (ground arith, digits-Lacks s h.1)

chosen :
    {A B : Type 0} (o : Option A) (f : A → Option B) (b : B)
    → (elim o [ none ↦ none | some a ↦ f a ]) ≡ some b
    → (a : A) × (o ≡ some a) × (f a ≡ some b)
chosen none f b h = absurd (cc h)
chosen (some a) f b h = (a, refl, h)

if_some :
    {A : Type 0} (test : Bool) (a b : A)
    → (if test then some a else none) ≡ some b
    → (test ≡ true) × (a ≡ b)
if_some test a b h = (ground arith, ground arith)

abbrev tests : Str → Str → Str → Str → Bool
tests name email seconds zone =
    not (is_empty name)
    && all is_name_byte name
    && all is_email_byte email
    && not (is_empty seconds)
    && all is_digit seconds
    && is_zone zone

six :
    (a b c d e f : Bool)
    → (a && b && c && d && e && f) ≡ true
    → (a ≡ true) × (b ≡ true) × (c ≡ true) × (d ≡ true) × (e ≡ true) × (f ≡ true)
six a b c d e f h = ground arith

-- The pieces put together again.
from_pieces :
    (line before after email rest name stamp seconds zone : Str)
    → cut b'<' line ≡ some (before, after)
    → cut b'>' after ≡ some (email, rest)
    → without_last_space before ≡ some name
    → without_first_space rest ≡ some stamp
    → cut b' ' stamp ≡ some (seconds, zone)
    → tests name email seconds zone ≡ true
    → IsIdentity line email
from_pieces line before after email rest name stamp seconds zone e₁ e₂ e₃ e₄ e₅ h =
    let (named, name_bytes, email_bytes, timed, digits, zoned) =
      six (not (is_empty name)) (all is_name_byte name) (all is_email_byte email)
        (not (is_empty seconds)) (all is_digit seconds) (is_zone zone) h in
    record {
      name = name;
      seconds = seconds;
      zone = zone;
      reads = cc (
        (cut-some b'<' line before after e₁).0,
        (cut-some b'>' after email rest e₂).0,
        last_space_some before name e₃,
        first_space_some rest stamp e₄,
        (cut-some b' ' stamp seconds zone e₅).0,
      );
      named = not_empty name named;
      name_bytes = all-All is_name_byte name name_bytes;
      email_bytes = all-All is_email_byte email email_bytes;
      timed = not_empty seconds timed;
      digits = all-All is_digit seconds digits;
      zoned = zoned;
    }

pub identity_email-IsIdentity :
    (line email : Str) → identity_email line ≡ some email → IsIdentity line email
unfolding identity_email
identity_email-IsIdentity line email h =
    let ((before, after), e₁, h₁) = chosen (cut b'<' line) _ _ h in
    let ((email', rest), e₂, h₂) = chosen (cut b'>' after) _ _ h₁ in
    let (name, e₃, h₃) = chosen (without_last_space before) _ _ h₂ in
    let (stamp, e₄, h₄) = chosen (without_first_space rest) _ _ h₃ in
    let ((seconds, zone), e₅, h₅) = chosen (cut b' ' stamp) _ _ h₄ in
    let (all_hold, same) = if_some _ _ _ h₅ in
    subst (IsIdentity line) same
      (from_pieces line before after email' rest name stamp seconds zone e₁ e₂ e₃ e₄ e₅ all_hold)

before-Lacks : (name : Str) → Lacks b'<' name → Lacks b'<' (name ++ b' ' ∷ [])
before-Lacks [] h = (refl, tt)
before-Lacks (c ∷ name) h = (h.0, before-Lacks name h.1)

nonempty : (s : Str) → s ≢ [] → not (is_empty s) ≡ true
nonempty [] h = absurd (h refl)
nonempty (c ∷ s) h = refl

IsIdentity-tests :
    (line email : Str) (i : IsIdentity line email) → tests i.name email i.seconds i.zone ≡ true
IsIdentity-tests line email i =
    rw
      (
        nonempty i.name i.named,
        All-all is_name_byte i.name i.name_bytes,
        All-all is_email_byte email i.email_bytes,
        nonempty i.seconds i.timed,
        All-all is_digit i.seconds i.digits,
      )
      i.zoned

IsIdentity-identity_email :
    (line email : Str) → IsIdentity line email → identity_email line ≡ some email
unfolding identity_email without_first_space
IsIdentity-identity_email line email i =
    let e₁ : cut b'<' line
        ≡ some (i.name ++ b' ' ∷ [], email ++ b'>' ∷ b' ' ∷ (i.seconds ++ b' ' ∷ i.zone)) =
      ap (cut b'<') i.reads
      ∙ cut-append b'<' _ _ (before-Lacks i.name (name-Lacks i.name i.name_bytes)) in
    let e₂ =
      cut-append b'>' email (b' ' ∷ (i.seconds ++ b' ' ∷ i.zone))
        (email-Lacks email i.email_bytes) in
    let e₃ = cut-append b' ' i.seconds i.zone (digits-Lacks i.seconds i.digits) in
    rw (identity_email, e₁, e₂, last_space-append i.name, e₃, IsIdentity-tests line email i) refl

-- The scanner reads an email off exactly the lines "Name <email> seconds zone" whose name and email
-- have no angle bracket and no control byte, and the email no space; and it is that line's email.
pub identity_email_iff :
    (line email : Str) → (identity_email line ≡ some email) ↔ IsIdentity line email
identity_email_iff line email =
    (identity_email-IsIdentity line email, IsIdentity-identity_email line email)
