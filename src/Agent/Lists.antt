-- ===== src/Agent/Lists.antt =====
-- The lists of enrolled ids (agent/arbiter-agent.c) are sets.
use chamge.Prelude.{
  ◌≡◌, refl, ap, true, false, not, ◌||◌, ◌&&◌, some, List, [], ◌∷◌, ◌++◌, Text, text_eq,
  text_eq_iff, arith,
}
use chamge.Agent.{is_enrolled, add_id, delete_id}

abbrev pub Distinct : List Text → Type 0
Distinct [] = Unit {0}
Distinct (x ∷ l) = (is_enrolled l (some x) ≡ false) × Distinct l

enrolled-append :
    (l m : List Text) (id : Text)
    → is_enrolled (l ++ m) (some id) ≡ (is_enrolled l (some id) || is_enrolled m (some id))
unfolding is_enrolled
enrolled-append [] m id = refl
enrolled-append (x ∷ l) m id = ground (arith, enrolled-append l m id)

pub text_eq_refl : (a : Text) → text_eq a a ≡ true
text_eq_refl a = (text_eq_iff a a).1 refl

is_enrolled_same :
    (l : List Text) (id other : Text)
    → other ≡ id
    → is_enrolled l (some other) ≡ is_enrolled l (some id)
is_enrolled_same l id other e = ap (λ x. is_enrolled l (some x)) e

-- After an enrolment of `id` a search finds it, and finds every other id exactly if it did before.
pub is_enrolled-add_id :
    (id other : Text) (l : List Text)
    → is_enrolled (add_id id l) (some other) ≡ (text_eq other id || is_enrolled l (some other))
unfolding add_id is_enrolled
is_enrolled-add_id id other l =
    ground
      (arith, enrolled-append l (id ∷ []) other, text_eq_iff other id, is_enrolled_same l id other)

Distinct-append :
    (l : List Text) (id : Text)
    → Distinct l
    → is_enrolled l (some id) ≡ false
    → Distinct (l ++ id ∷ [])
unfolding is_enrolled
Distinct-append [] id d h = ground arith
Distinct-append (x ∷ l) id d h = ground (
  arith,
  Distinct-append l id d.1,
  enrolled-append l (id ∷ []) x,
  text_eq_iff id x,
  text_eq_iff x id,
)

pub add_id-Distinct : (id : Text) (l : List Text) → Distinct l → Distinct (add_id id l)
unfolding add_id
add_id-Distinct id l d = ground (arith, Distinct-append l id d)

-- After a delisting of `id` from a list without repetitions a search does not find it, and finds
-- every other id exactly if it did before.
pub is_enrolled-delete_id :
    (id other : Text) (l : List Text)
    → Distinct l
    → is_enrolled (delete_id id l) (some other)
      ≡ (not (text_eq id other) && is_enrolled l (some other))
unfolding delete_id is_enrolled
is_enrolled-delete_id id other [] d = ground arith
is_enrolled-delete_id id other (x ∷ l) d = ground (
  arith,
  is_enrolled-delete_id id other l d.1,
  text_eq_iff id x,
  text_eq_iff id other,
  text_eq_iff other x,
  is_enrolled_same l x other,
)

pub delete_id-Distinct : (id : Text) (l : List Text) → Distinct l → Distinct (delete_id id l)
unfolding delete_id
delete_id-Distinct id [] d = tt
delete_id-Distinct id (x ∷ l) d =
    ground (arith, delete_id-Distinct id l d.1, is_enrolled-delete_id id x l d.1)
