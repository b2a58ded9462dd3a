-- ===== src/Channel/Members/Links.antt =====
-- The double entries of src/channel.c: a channel's chain names a client as often as the client's
-- chain names the channel.
use igniteircd.Prelude.{
  ℕ, ◌+◌, ◌-◌, ◌<◌, ◌≡◌, refl, sym, ap, ◌∙◌, inl, inr, pos, List, [], ◌∷◌, ◌++◌, length, ◌==◌,
  if◌then◌else◌, Bool-cases, arith,
}
use igniteircd.Channel.{Channel, Member, User, World, set}
use igniteircd.Channel.Members.{drop_link, drop_member}

-- How often the address stands in the chain.
abbrev pub occurs : ℕ → List ℕ → ℕ
occurs p [] = 0
occurs p (q ∷ links) = if p == q then occurs p links + 1 else occurs p links

abbrev pub member_ids : List Member → List ℕ
member_ids [] = []
member_ids (m ∷ members) = m.cptr ∷ member_ids members

pub swap_== : (p q : ℕ) → (p == q) ≡ (q == p)
swap_== p q = ground arith

pub occurs-drop_link :
    (p q : ℕ) (links : List ℕ)
    → occurs p (drop_link q links) ≡ (if p == q then occurs p links - 1 else occurs p links)
unfolding drop_link
occurs-drop_link p q [] = ground arith
occurs-drop_link p q (r ∷ links) = let ih = occurs-drop_link p q links in ground arith

pub occurs-append :
    (p q : ℕ) (links : List ℕ)
    → occurs p (links ++ q ∷ []) ≡ (if p == q then occurs p links + 1 else occurs p links)
occurs-append p q [] = refl
occurs-append p q (r ∷ links) = let ih = occurs-append p q links in ground arith

pub drop_member_ids :
    (p : ℕ) (members : List Member)
    → member_ids (drop_member p members) ≡ drop_link p (member_ids members)
unfolding drop_member drop_link
drop_member_ids p [] = refl
drop_member_ids p (m ∷ members) = elim (Bool-cases (m.cptr == p)) [
  | inl t ↦ rw t refl
  | inr f ↦ rw f (ap (◌∷◌ m.cptr) (drop_member_ids p members))
]

pub length-drop_link :
    (p : ℕ) (links : List ℕ) → 0 < occurs p links → length links ≡ length (drop_link p links) + 1
unfolding drop_link
length-drop_link p [] h = absurd (omega arith)
length-drop_link p (q ∷ links) h = elim (Bool-cases (q == p)) [
  | inl t ↦ rw t (omega arith)
  | inr f ↦
      let rest : 0 < occurs p links = ground arith in
      rw f (omega (arith, length-drop_link p links rest))
]

pub length-member_ids : (members : List Member) → length (member_ids members) ≡ length members
length-member_ids [] = refl
length-member_ids (m ∷ members) = omega (arith, length-member_ids members)

-- `a` is the chains of the channels, `b` those of the clients.
abbrev pub Linked : (ℕ → List ℕ) → (ℕ → List ℕ) → Type 0
Linked a b = (u c : ℕ) → occurs u (a c) ≡ occurs c (b u)

-- One client's links to one channel change in both chains alike.
pub Linked-set :
    (k : ℕ → ℕ) (a b : ℕ → List ℕ) (u c : ℕ) (x y : List ℕ)
    → Linked a b
    → ((v : ℕ) → occurs v x ≡ (if v == u then k (occurs v (a c)) else occurs v (a c)))
    → ((d : ℕ) → occurs d y ≡ (if d == c then k (occurs d (b u)) else occurs d (b u)))
    → Linked (set a c x) (set b u y)
Linked-set k a b u c x y h hx hy v d = elim (Bool-cases (d == c)) [
  | inl t ↦ elim (Bool-cases (v == u)) [
    | inl s ↦
        let at_c : d ≡ c = ground arith in
        let at_u : v ≡ u = ground arith in
        let there : occurs v x ≡ k (occurs v (a c)) =
          hx v ∙ ap (λ e. if e then k (occurs v (a c)) else occurs v (a c)) s in
        let back : occurs d y ≡ k (occurs d (b u)) =
          hy d ∙ ap (λ e. if e then k (occurs d (b u)) else occurs d (b u)) t in
        let across : occurs v (a c) ≡ occurs d (b u) =
          ap (λ e. occurs v (a e)) (sym at_c) ∙ h v d ∙ ap (λ w. occurs d (b w)) at_u in
        rw (t, s) (there ∙ ap k across ∙ sym back)
    | inr f ↦
        let at_c : d ≡ c = ground arith in
        let there : occurs v x ≡ occurs v (a c) =
          hx v ∙ ap (λ e. if e then k (occurs v (a c)) else occurs v (a c)) f in
        rw (t, f) (there ∙ ap (λ e. occurs v (a e)) (sym at_c) ∙ h v d)
  ]
  | inr g ↦ elim (Bool-cases (v == u)) [
    | inl s ↦
        let at_u : v ≡ u = ground arith in
        let back : occurs d y ≡ occurs d (b u) =
          hy d ∙ ap (λ e. if e then k (occurs d (b u)) else occurs d (b u)) g in
        rw (g, s) (h v d ∙ ap (λ w. occurs d (b w)) at_u ∙ sym back)
    | inr f ↦ rw (g, f) (h v d)
  ]
]

pub set-map {ℓ κ} :
    {A : Type ℓ} {B : Type κ} (g : A → B) (f : ℕ → A) (i : ℕ) (x : A) (j : ℕ)
    → g (set f i x j) ≡ set (λ k. g (f k)) i (g x) j
set-map g f i x j = elim (Bool-cases (j == i)) [ inl t ↦ rw t refl | inr e ↦ rw e refl ]

pub set-same {ℓ} : {A : Type ℓ} (f : ℕ → A) (i : ℕ) (j : ℕ) → set f i (f i) j ≡ f j
set-same f i j = elim (Bool-cases (j == i)) [
  | inl t ↦ let same : j ≡ i = ground arith in rw t (ap f (sym same))
  | inr g ↦ rw g refl
]

abbrev pub members_of : World → ℕ → List ℕ
members_of w c = member_ids (w.chan c).members

abbrev pub invites_of : World → ℕ → List ℕ
invites_of w c = (w.chan c).invites

abbrev pub channels_of : World → ℕ → List ℕ
channels_of w u = (w.user u).channel

abbrev pub invited_of : World → ℕ → List ℕ
invited_of w u = (w.user u).invited

abbrev pub IsJoined : User → Type 0
IsJoined user = user.joined ≡ pos (length user.channel)

abbrev pub IsCounted : Channel → Type 0
IsCounted ch = ch.users ≡ length ch.members

-- Members and invitations are entered on both sides, and the counters count them.
pub record IsConsistent (w : World) : Type 0 where
  pub members : Linked (members_of w) (channels_of w)
  pub invites : Linked (invites_of w) (invited_of w)
  pub joined : (u : ℕ) → IsJoined (w.user u)
  pub counted : (c : ℕ) → IsCounted (w.chan c)

-- A property of all addresses after one write.
pub set-All {ℓ κ} :
    {A : Type ℓ} (P : A → Type κ) (f : ℕ → A) (i : ℕ) (x : A)
    → ((j : ℕ) → P (f j))
    → P x
    → (j : ℕ) → P (set f i x j)
set-All P f i x h p j = elim (Bool-cases (j == i)) [ inl t ↦ rw t p | inr g ↦ rw g (h j) ]

-- Links that are read through two fields.
pub Linked-write {ℓ κ} :
    {A : Type ℓ} {B : Type κ} (p : A → List ℕ) (q : B → List ℕ) (f : ℕ → A) (g : ℕ → B) (c u : ℕ)
    (r : A) (s : B)
    → Linked (set (λ d. p (f d)) c (p r)) (set (λ v. q (g v)) u (q s))
    → Linked (λ d. p (set f c r d)) (λ v. q (set g u s v))
Linked-write p q f g c u r s h v d =
    ap (occurs v) (set-map p f c r d) ∙ h v d ∙ sym (ap (occurs d) (set-map q g u s v))

-- Writes that keep the two fields.
pub Linked-keep {ℓ κ} :
    {A : Type ℓ} {B : Type κ} (p : A → List ℕ) (q : B → List ℕ) (f : ℕ → A) (g : ℕ → B) (c u : ℕ)
    (r : A) (s : B)
    → Linked (λ d. p (f d)) (λ v. q (g v))
    → p r ≡ p (f c)
    → q s ≡ q (g u)
    → Linked (λ d. p (set f c r d)) (λ v. q (set g u s v))
Linked-keep p q f g c u r s h e k = Linked-write p q f g c u r s (
    rw (e, k)
      (λ v d.
        ap (occurs v) (set-same (λ d. p (f d)) c d)
        ∙ h v d
        ∙ sym (ap (occurs d) (set-same (λ v. q (g v)) u v))))
