-- ===== src/Coordinator/Calls/Share/Deal.antt =====
-- The deal ends, gives out every request, takes no more slots than a node has, and serves the nodes
-- in turn.
use native.Mathlib.Nat.{mod-lt, mod-eq_of_lt}
use native.Mathlib.Decide.{dec_lt}
use pheromone.Base.{
  ℕ, zero, suc, ◌+◌, ◌-◌, ◌%◌, ◌≤◌, ◌<◌, ◌≡◌, refl, sym, ◌∙◌, List, [], ◌∷◌, some, arith, length,
  nat_beq, Bool, true, false, Bool-cases, nat_beq_iff, inl, inr, ◌⊎◌, if◌then◌else◌,
}
use pheromone.Coordinator.Calls.Share.{update, entry, seek, deal}
use pheromone.Coordinator.Calls.Share.Seek.{
  sum, length-update, entry-update_self, entry-update_ne, sum-add, sum-take, seek-found, seek_total,
}

-- A node with a load has no node without a load before it.
abbrev pub InTurn : List ℕ → Type 0
InTurn loads = (i j : ℕ) → i ≤ j → 0 < entry loads j → 0 < entry loads i

abbrev pub Bounded : List ℕ → List ℕ → List ℕ → Type 0
Bounded slots loads r = (i : ℕ) → entry r i ≤ entry loads i + entry slots i

-- The first time round: the nodes before `idx` have a load, the others have none and all slots.
-- Later, every node has a load.
pub record First (slots loads : List ℕ) (idx : ℕ) : Type 0 where
  pub served : (j : ℕ) → j < idx → 0 < entry loads j
  pub waiting : (j : ℕ) → idx ≤ j → entry loads j ≡ 0
  pub free : (j : ℕ) → idx ≤ j → j < length slots → 0 < entry slots j

abbrev pub Later : List ℕ → Type 0
Later loads = (j : ℕ) → j < length loads → 0 < entry loads j

abbrev pub Phase : List ℕ → List ℕ → ℕ → Type 0
Phase slots loads idx = First slots loads idx ⊎ Later loads

pub record Dealt (requests : ℕ) (slots loads r : List ℕ) : Type 0 where
  pub size : length r ≡ length loads
  pub total : sum r ≡ sum loads + requests
  pub bounded : Bounded slots loads r
  pub in_turn : InTurn r

entry_beyond : (xs : List ℕ) (i : ℕ) → length xs ≤ i → entry xs i ≡ 0
entry_beyond [] i h = refl
entry_beyond (x ∷ xs) zero h = absurd (omega arith)
entry_beyond (x ∷ xs) (suc i) h = entry_beyond xs i (omega arith)

Phase-InTurn : (slots loads : List ℕ) (idx : ℕ) → Phase slots loads idx → InTurn loads
Phase-InTurn slots loads idx (inl f) i j le p = elim (dec_lt i idx) [
  | yes l ↦ f.served i l
  | no ge ↦ absurd (omega (arith, f.waiting j (omega arith)))
]
Phase-InTurn slots loads idx (inr l) i j le p = elim (dec_lt j (length loads)) [
  | yes k ↦ l i (omega arith)
  | no ge ↦ absurd (omega (arith, entry_beyond loads j (omega arith)))
]

entry-add :
    (loads : List ℕ) (i j : ℕ)
    → i < length loads
    → entry (update loads i (λ n. n + 1)) j
      ≡ (if nat_beq i j then entry loads j + 1 else entry loads j)
entry-add loads i j h = elim (Bool-cases (nat_beq i j)) [
  | inl e ↦ rw (← ((nat_beq_iff i j).0 e)) (entry-update_self loads i (λ n. n + 1) h ∙ ground arith)
  | inr e ↦ entry-update_ne loads i j (λ n. n + 1) e ∙ ground arith
]

entry-take :
    (slots : List ℕ) (i j : ℕ)
    → i < length slots
    → entry (update slots i (λ n. n - 1)) j
      ≡ (if nat_beq i j then entry slots j - 1 else entry slots j)
entry-take slots i j h = elim (Bool-cases (nat_beq i j)) [
  | inl e ↦ rw (← ((nat_beq_iff i j).0 e)) (entry-update_self slots i (λ n. n - 1) h ∙ ground arith)
  | inr e ↦ entry-update_ne slots i j (λ n. n - 1) e ∙ ground arith
]

some_injective : {a b : ℕ} → some a ≡ some b → a ≡ b
some_injective h = cc

one_less : (slots : List ℕ) (i j : ℕ) → 0 < entry slots i → nat_beq i j ≡ true → 0 < entry slots j
one_less slots i j h e = rw (← ((nat_beq_iff i j).0 e)) h

bound_step :
    (same : Bool) (r load slot load' slot' : ℕ)
    → (same ≡ true → 0 < slot)
    → load' ≡ (if same then load + 1 else load)
    → slot' ≡ (if same then slot - 1 else slot)
    → r ≤ load' + slot'
    → r ≤ load + slot
bound_step true r load slot load' slot' p a t b = let q = p refl in omega arith
bound_step false r load slot load' slot' p a t b = omega arith

seek_here :
    (fuel : ℕ) (slots : List ℕ) (idx : ℕ)
    → 0 < fuel
    → 0 < entry slots idx
    → seek fuel slots idx ≡ some idx
unfolding seek
seek_here zero slots idx l h = absurd (omega arith)
seek_here (suc fuel) slots idx l h = ground arith

-- The phase after one more request, at the node that the deal found.
First-step :
    (slots loads : List ℕ) (idx : ℕ)
    → length loads ≡ length slots
    → idx < length slots
    → First slots loads idx
    → Phase
        (update slots idx (λ n. n - 1))
        (update loads idx (λ n. n + 1))
        ((idx + 1) % length slots)
First-step slots loads idx e l f = elim (dec_lt (idx + 1) (length slots)) [
  | yes more ↦ rw (mod-eq_of_lt more) (
      inl (record {
        served = λ j h. rw (entry-add loads idx j (omega arith)) (elim (dec_lt j idx) [
          | yes b ↦ let s = f.served j b in ground arith
          | no b ↦ let same : idx ≡ j = omega arith in ground arith
        ]);
        waiting = λ j h.
            let w = f.waiting j (omega arith) in
            rw (entry-add loads idx j (omega arith)) (ground arith);
        free = λ j h k.
            let w = f.free j (omega arith) (omega (arith, length-update slots idx (λ n. n - 1))) in
            rw (entry-take slots idx j l) (ground arith);
      }))
  | no last ↦ inr λ j h. rw (entry-add loads idx j (omega arith)) (elim (dec_lt j idx) [
    | yes b ↦ let s = f.served j b in ground arith
    | no b ↦
        let same : idx ≡ j = omega (arith, length-update loads idx (λ n. n + 1)) in ground arith
  ])
]

Phase-step :
    (slots loads : List ℕ) (idx i : ℕ)
    → length loads ≡ length slots
    → idx < length slots
    → seek (length slots) slots idx ≡ some i
    → i < length slots
    → Phase slots loads idx
    → Phase (update slots i (λ n. n - 1)) (update loads i (λ n. n + 1)) ((i + 1) % length slots)
Phase-step slots loads idx i e l found k (inl f) =
    let here : idx ≡ i = some_injective (
      sym (seek_here (length slots) slots idx (omega arith) (f.free idx (omega arith) l))
      ∙ found) in
    rw (← here) (First-step slots loads idx e l f)
Phase-step slots loads idx i e l found k (inr all) = inr λ j h.
    let old = all j (omega (arith, length-update loads i (λ n. n + 1))) in
    rw (entry-add loads i j (omega arith)) (ground arith)

-- With a slot for every request the deal ends; it has given out every request, no node has more
-- than its slots, and no node without a load stands before one with a load.
pub deal_total :
    (requests : ℕ) (slots loads : List ℕ) (idx : ℕ)
    → length loads ≡ length slots
    → idx < length slots
    → requests ≤ sum slots
    → Phase slots loads idx
    → (r : List ℕ) × (deal requests slots loads idx ≡ some r) × Dealt requests slots loads r
unfolding deal
deal_total zero slots loads idx e l h p = (
  loads,
  refl,
  record {
    size = refl;
    total = omega arith;
    bounded = λ i. omega arith;
    in_turn = Phase-InTurn slots loads idx p;
  },
)
deal_total (suc requests) slots loads idx e l h p =
    let (i, found) = seek_total slots idx l (omega arith) in
    let (slot, k) = seek-found (length slots) slots idx i l found in
    let slots' = update slots i (λ n. n - 1) in
    let loads' = update loads i (λ n. n + 1) in
    let es = length-update slots i (λ n. n - 1) in
    let el = length-update loads i (λ n. n + 1) in
    let idx' = (i + 1) % length slots in
    let (r, done, d) =
      deal_total requests slots' loads' idx' (omega arith) (rw es (mod-lt (i + 1) (omega arith)))
        (omega (arith, sum-take slots i slot)) (Phase-step slots loads idx i e l found k p) in
    (
      r,
      rw (found, deal) done,
      record {
        size = omega (arith, d.size);
        total = omega (arith, d.total, sum-add loads i (omega arith));
        bounded = λ j.
            let b = d.bounded j in
            let a = entry-add loads i j (omega arith) in
            let t = entry-take slots i j k in
            bound_step (nat_beq i j) (entry r j) (entry loads j) (entry slots j) (entry loads' j)
              (entry slots' j) (one_less slots i j slot) a t b;
        in_turn = d.in_turn;
      },
    )
