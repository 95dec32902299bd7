-- ===== src/Outbox/Messages.antt =====
-- Which messages the tables hold, and what the methods do to them.
use horstmann_dnp3_gateway.Base.{
  ℕ, suc, ◌<◌, String, ◌≡◌, refl, sym, ◌∙◌, ◌⊎◌, inl, inr, none, some, List, [], ◌∷◌, map, arith,
  Bool-cases, ◌==◌, nat_eq, text_eq, pair_eq, All, All-keep, Any, nat_beq→eq,
}
use horstmann_dnp3_gateway.Base.Json.{loads}
use horstmann_dnp3_gateway.Outbox.{
  Outbox, Row, DeadRow, Message, bump, other_than, without, find_row, load_headers,
}
use horstmann_dnp3_gateway.Outbox.Invariant.{Rising}

abbrev pub row_message : Row → Message
row_message r = record {
  message_id = r.message_id;
  correlation_id = r.correlation_id;
  headers = load_headers r.headers;
  payload = loads r.payload;
}

abbrev pub dead_message : DeadRow → Message
dead_message d = record {
  message_id = d.message_id;
  correlation_id = d.correlation_id;
  headers = load_headers d.headers;
  payload = loads d.payload;
}

abbrev pub Waits : Message → List Row → Type 0
Waits m rows = Any (λ (r : Row). row_message r ≡ m) rows

abbrev pub IsPending : Message → Outbox → Type 0
IsPending m o = Waits m o.rows

abbrev pub IsDead : Message → Outbox → Type 0
IsDead m o = Any (λ (d : DeadRow). dead_message d ≡ m) o.dead

-- The rows with the id carry the message. Ids are unique, so a fetched row gives such a fact.
abbrev pub Carries : ℕ → Message → List Row → Type 0
Carries id m rows = All (λ (r : Row). r.id ≡ id → row_message r ≡ m) rows

pub Waits-without :
    (id : ℕ) (m n : Message) (rows : List Row)
    → Carries id n rows
    → Waits m rows
    → (n ≡ m) ⊎ Waits m (without id rows)
unfolding without
Waits-without id m n [] c w = absurd w
Waits-without id m n (r ∷ rows) c (inl e) = elim (Bool-cases (r.id == id)) [
  | inl t ↦ inl (sym (c.0 (nat_beq→eq r.id id t)) ∙ e)
  | inr t ↦ inr (rw t (inl e))
]
Waits-without id m n (r ∷ rows) c (inr w) = elim (Waits-without id m n rows c.1 w) [
  | inl e ↦ inl e
  | inr v ↦ inr (elim (Bool-cases (r.id == id)) [ inl t ↦ rw t v | inr t ↦ rw t (inr v) ])
]

pub Waits-bump :
    (id : ℕ) (error : String) (m : Message) (rows : List Row)
    → Waits m rows
    → Waits m (map (bump id error) rows)
Waits-bump id error m [] w = w
Waits-bump id error m (r ∷ rows) (inl e) =
    inl (elim (Bool-cases (r.id == id)) [ inl t ↦ rw t e | inr t ↦ rw t e ])
Waits-bump id error m (r ∷ rows) (inr w) = inr (Waits-bump id error m rows w)

pub Carries-without :
    (id j : ℕ) (m : Message) (rows : List Row) → Carries j m rows → Carries j m (without id rows)
unfolding without
Carries-without id j m rows =
    All-keep (λ (r : Row). r.id ≡ j → row_message r ≡ m) (other_than id) rows

pub Carries-bump :
    (id j : ℕ) (error : String) (m : Message) (rows : List Row)
    → Carries j m rows
    → Carries j m (map (bump id error) rows)
Carries-bump id j error m [] c = tt
Carries-bump id j error m (r ∷ rows) c = elim (Bool-cases (r.id == id)) [
  | inl t ↦ rw t (c.0, Carries-bump id j error m rows c.1)
  | inr t ↦ rw t (c.0, Carries-bump id j error m rows c.1)
]

-- The row that SELECT finds carries the message of its id.
pub find_row-Carries :
    (id : ℕ) (m : Message) (rows : List Row) (r : Row)
    → Carries id m rows
    → find_row id rows ≡ some r
    → row_message r ≡ m
unfolding find_row
find_row-Carries id m [] r c e = cc
find_row-Carries id m (x ∷ rows) r c e = ground (arith, find_row-Carries id m rows r c.1)

find_row-absent :
    (id : ℕ) (m : Message) (rows : List Row) → find_row id rows ≡ none → without id rows ≡ rows
unfolding find_row without
find_row-absent id m [] e = refl
find_row-absent id m (x ∷ rows) e = ground (arith, find_row-absent id m rows)

-- Ids above `lo` are not below it.
Carries-above :
    (id lo hi : ℕ) (m : Message) (rows : List Row) → id < lo → Rising lo hi rows → Carries id m rows
Carries-above id lo hi m [] lt h = tt
Carries-above id lo hi m (r ∷ rows) lt h =
    (λ e. absurd (omega arith), Carries-above id (suc r.id) hi m rows (omega arith) h.1)

abbrev Own : List Row → Row → Type 0
Own rows r = Carries r.id (row_message r) rows

Own-cons :
    (x : Row) (lo hi : ℕ) (rows all : List Row)
    → x.id < lo
    → Rising lo hi rows
    → All (Own all) rows
    → All (Own (x ∷ all)) rows
Own-cons x lo hi [] all lt h o = tt
Own-cons x lo hi (r ∷ rows) all lt h o =
    ((λ e. absurd (omega arith), o.0), Own-cons x (suc r.id) hi rows all (omega arith) h.1 o.1)

-- In a valid table, each row's id determines its message.
pub Rising-Own : (lo hi : ℕ) (rows : List Row) → Rising lo hi rows → All (Own rows) rows
Rising-Own lo hi [] h = tt
Rising-Own lo hi (r ∷ rows) h = (
  (λ e. refl, Carries-above r.id (suc r.id) hi (row_message r) rows (omega arith) h.1),
  Own-cons r (suc r.id) hi rows rows (omega arith) h.1 (Rising-Own (suc r.id) hi rows h.1),
)
