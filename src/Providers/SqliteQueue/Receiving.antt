-- ===== src/Providers/SqliteQueue/Receiving.antt =====
-- providers/queues/sqlite-queue-provider.ts: `receive` ends, delivers what waits, and loses nothing.
use railfog.Prelude.{
  some-inj, subst, ℕ, zero, suc, ◌+◌, ◌≤◌, ◌<◌, ◌≡◌, refl, ◌⊎◌, inl, inr, Bool, true, false, Option,
  none, some, List, [], ◌∷◌, Text, text_eq, text_eq_refl, arith, ltb, leb, if◌then◌else◌, map,
  Bool-cases,
}
use railfog.Providers.SqliteQueue.{
  Entry, Message, purge_expired, sooner, earliest, update, is_waiting, taken, buried, take_entry,
  receive_turn, receive, max_receives,
}

-- Rows that are not dead letters.
abbrev pub open_count : List Entry → ℕ
open_count [] = 0
open_count (r ∷ rows) = (if r.is_dlq then 0 else 1) + open_count rows

open_count-purge :
    (now : ℕ) (rows : List Entry) → open_count (purge_expired now rows) ≤ open_count rows
unfolding purge_expired
open_count-purge now [] = ground arith
open_count-purge now (r ∷ rows) = ground (arith, open_count-purge now rows)

abbrev pub In : Entry → List Entry → Type 0
In r [] = ⊥
In r (x ∷ rows) = (x ≡ r) ⊎ In r rows

sooner-In :
    (x r : Entry) (rows : List Entry) (o : Option Entry) (P : Entry → Type 0)
    → ((y : Entry) → o ≡ some y → In y rows × P y)
    → P x
    → sooner x o ≡ r
    → In r (x ∷ rows) × P r
sooner-In x r rows none P tail head e = (inl e, subst P e head)
sooner-In x r rows (some y) P tail head e =
    elim (Bool-cases (leb x.visible_after y.visible_after)) [
      | inl first ↦ let same = rw first at e in (inl same, subst P same head)
      | inr later ↦
          let same = rw later at e in
          let (there, holds) = tail y refl in
          (inr (subst (λ z. In z rows) same there), subst P same holds)
    ]

choose-In :
    (p : Entry → Bool) (x r : Entry) (rows : List Entry) (o : Option Entry)
    → ((y : Entry) → o ≡ some y → In y rows × (p y ≡ true))
    → (if p x then some (sooner x o) else o) ≡ some r
    → In r (x ∷ rows) × (p r ≡ true)
choose-In p x r rows o tail e = elim (Bool-cases (p x)) [
  | inl passes ↦ sooner-In x r rows o (λ z. p z ≡ true) tail passes (some-inj (rw passes at e))
  | inr fails ↦ let (there, holds) = tail r (rw fails at e) in (inr there, holds)
]

pub earliest-In :
    (p : Entry → Bool) (r : Entry) (rows : List Entry)
    → earliest p rows ≡ some r
    → In r rows × (p r ≡ true)
unfolding earliest
earliest-In p r [] e = absurd cc
earliest-In p r (x ∷ rows) e = choose-In p x r rows (earliest p rows) (λ y. earliest-In p y rows) e

-- What the two updates of a burial make of a row.
abbrev bury_one : Text → ℕ → Entry → Entry
bury_one id next r = if text_eq r.id id then buried (taken next r) else r

bury-map :
    (id : Text) (next : ℕ) (rows : List Entry)
    → update id buried (update id (taken next) rows) ≡ map (bury_one id next) rows
unfolding update
bury-map id next [] = refl
bury-map id next (r ∷ rows) = elim (Bool-cases (text_eq r.id id)) [
  | inl same ↦ rw (same, same, bury-map id next rows)
  | inr other ↦ rw (other, other, bury-map id next rows)
]

open_count-bury-le :
    (id : Text) (next : ℕ) (rows : List Entry)
    → open_count (map (bury_one id next) rows) ≤ open_count rows
open_count-bury-le id next [] = ground arith
open_count-bury-le id next (r ∷ rows) = ground (arith, open_count-bury-le id next rows)

open_count-bury :
    (r : Entry) (next : ℕ) (rows : List Entry)
    → In r rows
    → r.is_dlq ≡ false
    → open_count (map (bury_one r.id next) rows) < open_count rows
open_count-bury r next [] i alive = absurd i
open_count-bury r next (x ∷ rows) (inl here) alive =
    rw (here, text_eq_refl r.id, alive) (omega (arith, open_count-bury-le r.id next rows))
open_count-bury r next (x ∷ rows) (inr there) alive =
    ground (arith, open_count-bury r next rows there alive)

-- A turn that asks for another one has one row less to choose from.
take_entry-shrinks :
    (next now : ℕ) (o : Option Entry) (rows : List Entry)
    → ((r : Entry) → o ≡ some r → In r rows × (is_waiting now r ≡ true))
    → (take_entry next o rows).0 ≡ none
    → open_count (take_entry next o rows).1 < open_count rows
unfolding take_entry
take_entry-shrinks next now none rows chosen e = absurd cc
take_entry-shrinks next now (some r) rows chosen e =
    elim (Bool-cases (ltb max_receives (suc r.attempts))) [
      | inl often ↦
          rw (often, bury-map r.id next rows)
            (open_count-bury r next rows (chosen r refl).0 (ground (arith, (chosen r refl).1)))
      | inr seldom ↦ absurd (ground (arith, rw seldom at e))
    ]

receive_turn-shrinks :
    (timeout now : ℕ) (rows : List Entry)
    → (receive_turn timeout now rows).0 ≡ none
    → open_count (receive_turn timeout now rows).1 < open_count rows
unfolding receive_turn
receive_turn-shrinks timeout now rows e = omega (
  arith,
  open_count-purge now rows,
  take_entry-shrinks (now + timeout) now (earliest (is_waiting now) (purge_expired now rows))
      (purge_expired now rows) (λ r. earliest-In (is_waiting now) r (purge_expired now rows)) e,
)

-- `receive` returns, whatever the clock does: as many turns as the table has rows that are not dead
-- letters, and one more, are enough.
pub receive_returns :
    (fuel timeout : ℕ) (clock : ℕ → ℕ) (rows : List Entry)
    → open_count rows < fuel
    → (answer : Option Message) × ((receive fuel timeout clock rows).0 ≡ some answer)
unfolding receive
receive_returns zero timeout clock rows enough = absurd (omega (arith, enough))
receive_returns (suc f) timeout clock rows enough =
    go (receive_turn timeout (clock f) rows).0 refl
      (λ small. receive_returns f timeout clock (receive_turn timeout (clock f) rows).1 small)
  where
    go :
        (o : Option (Option Message))
        → (receive_turn timeout (clock f) rows).0 ≡ o
        → (open_count (receive_turn timeout (clock f) rows).1 < f
            → (answer : Option Message) × ((receive f timeout clock
                  (receive_turn timeout (clock f) rows).1).0
                ≡ some answer))
        → (answer : Option Message) × ((receive (suc f) timeout clock rows).0 ≡ some answer)
    go (some answer) e later = (answer, rw (e, receive))
    go none e later =
        rw (e, receive)
          (later (omega (arith, enough, receive_turn-shrinks timeout (clock f) rows e)))
