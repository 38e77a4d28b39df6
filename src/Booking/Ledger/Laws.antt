-- ===== src/Booking/Ledger/Laws.antt =====
-- What the constraints of `appointments` keep.
use whatsapp_atendimentos_ag.Prelude.{
  ◌≡◌, refl, sym, subst, inl, inr, Bool, true, false, not, Option, none, some, List, [], ◌∷◌,
  ==_iff, any, arith, All, Any, All-map, All-keep_if, All-at, if_cases, Bool-cases, ◌==◌,
}
use whatsapp_atendimentos_ag.Booking.Capacity.{Appointment}
use whatsapp_atendimentos_ag.Booking.Ledger.{
  clash, same_key, same_id, Database, flush, written, other_rows, write_row, find_row,
  same_present_key,
}
use Prim.Native.String.{String}
use text.Mathlib.Text.{◌==◌ as str_eq}
use text.Mathlib.TextEquality.{eq_iff}

-- Two rows that the constraints allow beside each other.
pub record AreCompatible (a b : Appointment) : Type 0 where
  pub no_clash : clash a b ≡ false
  pub no_shared_key : same_key a b ≡ false
  pub no_shared_id : same_id a b ≡ false

-- A table in which the constraints hold for any two rows.
abbrev pub IsConsistent : List Appointment → Type 0
IsConsistent [] = Unit
IsConsistent (a ∷ rows) = All (AreCompatible a) rows × IsConsistent rows

none_of :
    (a : Appointment) (rows : List Appointment)
    → any (clash a) rows ≡ false
    → any (same_key a) rows ≡ false
    → any (same_id a) rows ≡ false
    → All (AreCompatible a) rows
none_of a [] h k i = tt
none_of a (b ∷ rows) h k i = (
  record {
    no_clash = ground (arith, h);
    no_shared_key = ground (arith, k);
    no_shared_id = ground (arith, i);
  },
  none_of a rows (ground (arith, h)) (ground (arith, k)) (ground (arith, i)),
)

pub flush-AreCompatible :
    (db : Database) (a : Appointment) (rows : List Appointment)
    → flush db rows a ≡ written
    → All (AreCompatible a) rows
unfolding flush
flush-AreCompatible db a rows h =
    none_of a rows (ground (arith, h)) (ground (arith, h)) (ground (arith, h))

same_present_key_comm :
    (k l : Option String) → same_present_key k l ≡ false → same_present_key l k ≡ false
same_present_key_comm none none h = refl
same_present_key_comm none (some l) h = refl
same_present_key_comm (some k) none h = refl
same_present_key_comm (some k) (some l) h = elim (Bool-cases (str_eq l k)) [
  | inl e ↦ ground (arith, h, (eq_iff k l).1 (sym ((eq_iff l k).0 e)))
  | inr e ↦ e
]

clash_comm : (a b : Appointment) → clash a b ≡ false → clash b a ≡ false
unfolding clash
clash_comm a b h = ground (arith, h)

pub AreCompatible-comm : (a b : Appointment) → AreCompatible a b → AreCompatible b a
unfolding same_key
AreCompatible-comm a b c = record {
  no_clash = clash_comm a b c.no_clash;
  no_shared_key = same_present_key_comm a.idempotency_key b.idempotency_key c.no_shared_key;
  no_shared_id = ground (arith, c.no_shared_id);
}

-- The row `a` fits beside every row of another id.
abbrev pub Fits : Appointment → List Appointment → Type 0
Fits a rows = All (λ b. not (b.id == a.id) ≡ true → AreCompatible a b) rows

pub flush-Fits :
    (db : Database) (a : Appointment) (rows : List Appointment)
    → flush db (other_rows a.id rows) a ≡ written
    → Fits a rows
flush-Fits db a rows h =
    All-keep_if (AreCompatible a) (λ b. not (b.id == a.id)) rows
      (flush-AreCompatible db a (other_rows a.id rows) h)

-- A row that fits may replace the row of its id.
write_row-beside :
    (a b : Appointment) (rows : List Appointment)
    → AreCompatible b a
    → All (AreCompatible b) rows
    → All (AreCompatible b) (write_row a rows)
unfolding write_row
write_row-beside a b [] c h = tt
write_row-beside a b (x ∷ rows) c h =
    (if_cases (AreCompatible b) (x.id == a.id) (λ _. c) (λ _. h.0), write_row-beside a b rows c h.1)

write_row-absent :
    (a b : Appointment) (rows : List Appointment)
    → a.id ≡ b.id
    → Fits a rows
    → All (AreCompatible b) rows
    → All (AreCompatible a) (write_row a rows)
unfolding write_row
write_row-absent a b [] e f h = tt
write_row-absent a b (x ∷ rows) e f h = (
  if_cases (AreCompatible a) (x.id == a.id) (λ t. ground (arith, t, h.0.no_shared_id, e))
      (λ t. f.0 (ground (arith, t))),
  write_row-absent a b rows e f.1 h.1,
)

pub write_row-IsConsistent :
    (a : Appointment) (rows : List Appointment)
    → Fits a rows
    → IsConsistent rows
    → IsConsistent (write_row a rows)
unfolding write_row
write_row-IsConsistent a [] f c = tt
write_row-IsConsistent a (b ∷ rows) f c =
    let rest = write_row-IsConsistent a rows f.1 c.1 in
    if_cases (λ x. All (AreCompatible x) (write_row a rows) × IsConsistent (write_row a rows))
      (b.id == a.id) (λ t. (write_row-absent a b rows (sym ((==_iff b.id a.id).0 t)) f.1 c.0, rest))
      (λ t.
        (write_row-beside a b rows (AreCompatible-comm a b (f.0 (ground (arith, t)))) c.0, rest))

Fits-head :
    (a : Appointment) (rows : List Appointment) → All (AreCompatible a) rows → Fits a (a ∷ rows)
Fits-head a rows h = ((λ t. ground (arith, t)), All-map rows (λ x f _. f) h)

-- A row that is there fits beside the others.
pub find_row-Fits :
    (p : Appointment → Bool) (rows : List Appointment) (a : Appointment)
    → IsConsistent rows
    → find_row p rows ≡ some a
    → Fits a rows × Any (λ b. b ≡ a) rows
find_row-Fits p [] a c h = ground (arith, h)
find_row-Fits p (b ∷ rows) a c h = elim (Bool-cases (p b)) [
  | inl e ↦
      (let same : b ≡ a = ground (arith, h, e) in
        (subst (λ x. Fits x (b ∷ rows)) same (Fits-head b rows c.0), inl same))
  | inr e ↦
      (let (f, m) = find_row-Fits p rows a c.1 (ground (arith, h, e)) in
        (((λ _. AreCompatible-comm b a (All-at (AreCompatible b) rows a c.0 m)), f), inr m))
]
