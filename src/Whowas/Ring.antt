-- ===== src/Whowas/Ring.antt =====
-- The lists of src/whowas.c stay an index of the ring: a reused place leaves all lists first.
use igniteircd.Prelude.{
  ℕ, inl, inr, ◌<◌, ◌≡◌, ◌⊎◌, refl, sym, ap, ◌∙◌, Option, none, some, List, ◌==◌, Bool-cases, arith,
}
use igniteircd.Channel.{set}
use igniteircd.Channel.Set.{set_at}
use igniteircd.Whowas.{
  Client, Entry, State, nicknamehistorylength, initwhowas, take_off, put_on, unlink, new_entry,
  fill, add_history, hash_whowas_name,
}
use igniteircd.Whowas.Index.{IsIndex, points, take_off-IsIndex, put_on-IsIndex}

abbrev pub hash_key : State → ℕ → Option ℕ
hash_key s i = (s.entries i).hashv

abbrev pub client_key : State → ℕ → Option ℕ
client_key s i = (s.entries i).online

-- The chains hold the used entries by their hash value, and each client's list the entries that
-- name it, every entry once; an unused entry names no client.
pub record IsValid (s : State) : Type 0 where
  pub by_hash : IsIndex s.hash (hash_key s)
  pub by_client : IsIndex s.of_client (client_key s)
  pub unused : (i : ℕ) → hash_key s i ≡ none → client_key s i ≡ none
  pub inside : s.next < nicknamehistorylength

pub IsIndex-cong :
    (lists : ℕ → List ℕ) (key key' : ℕ → Option ℕ)
    → ((i : ℕ) → key i ≡ key' i)
    → IsIndex lists key
    → IsIndex lists key'
IsIndex-cong lists key key' e h i k = h i k ∙ ap (λ o. points o k) (e i)

-- A key of entries of which one is replaced, also after it was taken off.
pub key_replaced :
    (f : Entry → Option ℕ) (entries : ℕ → Entry) (who : ℕ) (x : Entry) (i : ℕ)
    → set (λ j. f (entries j)) who (f x) i ≡ f (set entries who x i)
key_replaced f entries who x i = elim (Bool-cases (i == who)) [
  | inl t ↦ rw t refl
  | inr f ↦ rw f refl
]

set_twice :
    (key : ℕ → Option ℕ) (who : ℕ) (o o' : Option ℕ) (i : ℕ)
    → set (set key who o) who o' i ≡ set key who o' i
set_twice key who o o' i = elim (Bool-cases (i == who)) [ inl t ↦ rw t refl | inr f ↦ rw f refl ]

-- A place that is on no list, the other entries being as in IsValid.
record IsFree (t : State) (who : ℕ) : Type 0 where
  free_hash : IsIndex t.hash (set (hash_key t) who none)
  free_client : IsIndex t.of_client (set (client_key t) who none)
  still_unused : (i : ℕ) → hash_key t i ≡ none → client_key t i ≡ none
  still_inside : t.next < nicknamehistorylength

unlink-IsFree :
    (s : State) (who : ℕ) (o : Option ℕ)
    → IsValid s
    → hash_key s who ≡ o
    → IsFree (unlink o who s) who
unfolding unlink take_off
unlink-IsFree s who none h e = record {
  free_hash = take_off-IsIndex s.hash (hash_key s) who h.by_hash none e;
  free_client = take_off-IsIndex s.of_client (client_key s) who h.by_client none (h.unused who e);
  still_unused = h.unused;
  still_inside = h.inside;
}
unlink-IsFree s who (some n) h e = record {
  free_hash = take_off-IsIndex s.hash (hash_key s) who h.by_hash (some n) e;
  free_client = take_off-IsIndex s.of_client (client_key s) who h.by_client (client_key s who) refl;
  still_unused = h.unused;
  still_inside = h.inside;
}

-- Putting a place back under new keys.
put_back :
    (lists : ℕ → List ℕ) (f : Entry → Option ℕ) (entries : ℕ → Entry) (who : ℕ) (x : Entry)
    → IsIndex lists (set (λ j. f (entries j)) who none)
    → IsIndex (put_on (f x) who lists) (λ i. f (set entries who x i))
put_back lists f entries who x h =
    let key : ℕ → Option ℕ = λ j. f (entries j) in
    IsIndex-cong (put_on (f x) who lists) (set (set key who none) who (f x))
      (λ i. f (set entries who x i))
      (λ i. set_twice key who none (f x) i ∙ key_replaced f entries who x i)
      (put_on-IsIndex lists (set key who none) who h (f x) (set_at key who none))

pub entry_at :
    (entries : ℕ → Entry) (who : ℕ) (x : Entry) (i : ℕ)
    → (set entries who x i ≡ x) ⊎ (set entries who x i ≡ entries i)
entry_at entries who x i = elim (Bool-cases (i == who)) [
  | inl t ↦ rw t (inl refl)
  | inr f ↦ rw f (inr refl)
]

unused_filled :
    (entries : ℕ → Entry) (who : ℕ) (x : Entry) (n : ℕ)
    → ((i : ℕ) → (entries i).hashv ≡ none → (entries i).online ≡ none)
    → x.hashv ≡ some n
    → (i : ℕ) → (set entries who x i).hashv ≡ none
    → (set entries who x i).online ≡ none
unused_filled entries who x n h used i e = elim (entry_at entries who x i) [
  | inl t ↦ let e' : some n ≡ none = sym used ∙ sym (ap (λ y. y.hashv) t) ∙ e in cc
  | inr f ↦ ap (λ y. y.online) f ∙ h i (sym (ap (λ y. y.hashv) f) ∙ e)
]

fill-IsValid :
    (t : State) (who : ℕ) (cptr : Client) (online : Option ℕ)
    → IsFree t who
    → IsValid (fill who cptr online t)
unfolding fill new_entry
fill-IsValid t who cptr online f =
    let x = new_entry t.now cptr online in
    record {
      by_hash = put_back t.hash (λ e. e.hashv) t.entries who x f.free_hash;
      by_client = put_back t.of_client (λ e. e.online) t.entries who x f.free_client;
      unused = unused_filled t.entries who x (hash_whowas_name cptr.name) f.still_unused refl;
      inside = let below = f.still_inside in ground (arith, below);
    }

-- add_history keeps the lists an index of the ring, online or not, also where the ring is full
-- and its oldest entry is replaced, and keeps whowas_next inside the ring.
pub add_history-IsValid :
    (s : State) (cptr : Client) (online : Option ℕ)
    → IsValid s
    → IsValid (add_history cptr online s)
unfolding add_history
add_history-IsValid s cptr online h =
    fill-IsValid (unlink (s.entries s.next).hashv s.next s) s.next cptr online
      (unlink-IsFree s s.next (s.entries s.next).hashv h refl)

pub initwhowas-IsValid : (now : ℕ) → IsValid (initwhowas now)
unfolding initwhowas
initwhowas-IsValid now = record {
  by_hash = λ i k. refl;
  by_client = λ i k. refl;
  unused = λ i e. refl;
  inside = omega arith;
}
