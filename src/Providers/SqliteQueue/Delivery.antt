-- ===== src/Providers/SqliteQueue/Delivery.antt =====
-- providers/queues/sqlite-queue-provider.ts: what `receive` leaves in the table, and what it
-- delivers.
use railfog.Prelude.{
  ltb-false→le, ℕ, zero, suc, ◌+◌, ◌≤◌, ◌<◌, ◌≡◌, refl, sym, ◌∙◌, ap, inl, inr, Bool, not, Option,
  none, some, some-inj, List, [], ◌∷◌, Text, text_eq, text_eq_iff, arith, ltb, filterb, map, All,
  Bool-cases,
}
use railfog.Providers.SqliteKv.{is_due}
use railfog.Providers.SqliteQueue.{
  Entry, Message, purge_expired, earliest, update, is_waiting, taken, buried, message_of,
  take_entry, receive_turn, receive, max_receives,
}

-- What an entry carries for its receiver, and until when.
abbrev pub contents : Entry → Text × (Text × Option ℕ)
contents r = (r.id, (r.body, r.expires_at))

update-contents :
    (id : Text) (f : Entry → Entry) (rows : List Entry)
    → ((r : Entry) → contents (f r) ≡ contents r)
    → map contents (update id f rows) ≡ map contents rows
unfolding update
update-contents id f [] same = refl
update-contents id f (r ∷ rows) same = elim (Bool-cases (text_eq r.id id)) [
  | inl hit ↦ rw (hit, same r, update-contents id f rows same)
  | inr miss ↦ rw (miss, update-contents id f rows same)
]

abbrev pub lives : (now : ℕ) → Text × (Text × Option ℕ) → Bool
lives now c = not (is_due now c.1.1)

purge-contents :
    (now : ℕ) (rows : List Entry)
    → map contents (purge_expired now rows) ≡ filterb (lives now) (map contents rows)
unfolding purge_expired
purge-contents now [] = refl
purge-contents now (r ∷ rows) = elim (Bool-cases (is_due now r.expires_at)) [
  | inl due ↦ rw (due, purge-contents now rows)
  | inr live ↦ rw (live, purge-contents now rows)
]

filterb-twice {ℓ} :
    {A : Type ℓ} (p : A → Bool) (xs : List A) → filterb p (filterb p xs) ≡ filterb p xs
filterb-twice p [] = refl
filterb-twice p (x ∷ xs) = elim (Bool-cases (p x)) [
  | inl kept ↦ rw (kept, kept, filterb-twice p xs)
  | inr gone ↦ rw (gone, filterb-twice p xs)
]

take_entry-contents :
    (next : ℕ) (o : Option Entry) (rows : List Entry)
    → map contents (take_entry next o rows).1 ≡ map contents rows
unfolding take_entry
take_entry-contents next none rows = refl
take_entry-contents next (some r) rows = elim (Bool-cases (ltb max_receives (suc r.attempts))) [
  | inl often ↦ rw often (
      update-contents r.id buried (update r.id (taken next) rows) (λ x. refl)
      ∙ update-contents r.id (taken next) rows (λ x. refl))
  | inr seldom ↦ rw seldom (update-contents r.id (taken next) rows (λ x. refl))
]

receive_turn-contents :
    (timeout now : ℕ) (rows : List Entry)
    → map contents (receive_turn timeout now rows).1 ≡ filterb (lives now) (map contents rows)
unfolding receive_turn
receive_turn-contents timeout now rows =
    take_entry-contents (now + timeout) (earliest (is_waiting now) (purge_expired now rows))
      (purge_expired now rows)
    ∙ purge-contents now rows

-- With one clock reading for all its turns, and whether or not it delivers a message, `receive`
-- loses, changes and moves no message that has not expired: the ids, bodies and expiries stay, in
-- order.
pub receive-contents :
    (fuel timeout now : ℕ) (rows : List Entry)
    → filterb (lives now) (map contents (receive fuel timeout (λ _. now) rows).1)
      ≡ filterb (lives now) (map contents rows)
unfolding receive
receive-contents zero timeout now rows = refl
receive-contents (suc f) timeout now rows =
    go (receive_turn timeout now rows).0 refl
      (receive-contents f timeout now (receive_turn timeout now rows).1)
  where
    turned :
        filterb (lives now) (map contents (receive_turn timeout now rows).1)
        ≡ filterb (lives now) (map contents rows)
    turned =
        ap (filterb (lives now)) (receive_turn-contents timeout now rows)
        ∙ filterb-twice (lives now) (map contents rows)

    go :
        (o : Option (Option Message))
        → (receive_turn timeout now rows).0 ≡ o
        → filterb
            (lives now)
            (map contents (receive f timeout (λ _. now) (receive_turn timeout now rows).1).1)
          ≡ filterb (lives now) (map contents (receive_turn timeout now rows).1)
        → filterb (lives now) (map contents (receive (suc f) timeout (λ _. now) rows).1)
          ≡ filterb (lives now) (map contents rows)
    go (some answer) e later = rw (e, receive) turned
    go none e later = rw (e, receive) (later ∙ turned)

-- Rows with this id cannot be received before `until`.
abbrev pub HiddenUntil : Text → ℕ → List Entry → Type 0
HiddenUntil id until rows = All (λ r. r.id ≡ id → r.visible_after ≡ until) rows

taken-HiddenUntil :
    (id : Text) (next : ℕ) (rows : List Entry) → HiddenUntil id next (update id (taken next) rows)
unfolding update
taken-HiddenUntil id next [] = tt
taken-HiddenUntil id next (r ∷ rows) = elim (Bool-cases (text_eq r.id id)) [
  | inl hit ↦ rw hit ((λ e. refl), taken-HiddenUntil id next rows)
  | inr miss ↦
      rw miss ((λ e. absurd (ground (arith, text_eq_iff r.id id))), taken-HiddenUntil id next rows)
]

take_entry-delivers :
    (next : ℕ) (o : Option Entry) (rows : List Entry) (m : Message)
    → (take_entry next o rows).0 ≡ some (some m)
    → (m.attempts ≤ max_receives) × HiddenUntil m.id next (take_entry next o rows).1
unfolding take_entry
take_entry-delivers next none rows m e = absurd cc
take_entry-delivers next (some r) rows m e = elim (Bool-cases (ltb max_receives (suc r.attempts))) [
  | inl often ↦ absurd (ground (arith, rw often at e))
  | inr seldom ↦ rw seldom (
      let told : message_of (taken next r) ≡ m = some-inj (some-inj (rw seldom at e)) in
      rw (sym told) (
        omega (arith, ltb-false→le max_receives (suc r.attempts) seldom),
        taken-HiddenUntil r.id next rows,
      ))
]

receive_turn-delivers :
    (timeout now : ℕ) (rows : List Entry) (m : Message)
    → (receive_turn timeout now rows).0 ≡ some (some m)
    → (m.attempts ≤ max_receives)
      × HiddenUntil m.id (now + timeout) (receive_turn timeout now rows).1
unfolding receive_turn
receive_turn-delivers timeout now rows m e =
    take_entry-delivers (now + timeout) (earliest (is_waiting now) (purge_expired now rows))
      (purge_expired now rows) m e

Delivers : (timeout : ℕ) (clock : ℕ → ℕ) → Message → ℕ → List Entry → Type 0
Delivers timeout clock m bound rows =
    (m.attempts ≤ max_receives)
    × ((turn : ℕ) × (turn < bound) × HiddenUntil m.id (clock turn + timeout) rows)

receive_step :
    (f timeout : ℕ) (clock : ℕ → ℕ) (rows : List Entry) (m : Message) (o : Option (Option Message))
    → (receive_turn timeout (clock f) rows).0 ≡ o
    → (receive (suc f) timeout clock rows).0 ≡ some (some m)
    → ((receive f timeout clock (receive_turn timeout (clock f) rows).1).0 ≡ some (some m)
        → Delivers timeout clock m f
            (receive f timeout clock (receive_turn timeout (clock f) rows).1).1)
    → Delivers timeout clock m (suc f) (receive (suc f) timeout clock rows).1
unfolding Delivers receive
receive_step f timeout clock rows m (some answer) found end later =
    let told : (receive_turn timeout (clock f) rows).0 ≡ some (some m) =
      found ∙ (rw (found, receive) at end) in
    let (few, hidden) = receive_turn-delivers timeout (clock f) rows m told in
    rw (found, receive) (few, (f, omega arith, hidden))
receive_step f timeout clock rows m none found end later =
    let (few, (turn, early, hidden)) = later (rw (found, receive) at end) in
    rw (found, receive) (few, (turn, omega (arith, early), hidden))

-- When `receive` delivers a message, this is at most its fifth receive, and every row with its id
-- then stays invisible for the visibility timeout, counted from a clock reading of this call.
pub receive_hides :
    (fuel timeout : ℕ) (clock : ℕ → ℕ) (rows : List Entry) (m : Message)
    → (receive fuel timeout clock rows).0 ≡ some (some m)
    → (m.attempts ≤ max_receives)
      × ((turn : ℕ) × (turn < fuel)
          × HiddenUntil m.id (clock turn + timeout) (receive fuel timeout clock rows).1)
unfolding receive Delivers
receive_hides zero timeout clock rows m e = absurd cc
receive_hides (suc f) timeout clock rows m e =
    receive_step f timeout clock rows m (receive_turn timeout (clock f) rows).0 refl e
      (receive_hides f timeout clock (receive_turn timeout (clock f) rows).1 m)
