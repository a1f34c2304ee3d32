-- ===== src/Recovery/Chain.antt =====
-- The loop over the chain of an error ends.
use just_another_coding_agen.Base.{
  ◌≡◌, refl, ◌∙◌, sym, inl, inr, ℕ, zero, suc, ◌+◌, ◌<◌, Bool, true, false, ◌||◌, none, some, List,
  [], ◌∷◌, ◌++◌, length, length-append, get_elem?, arith, Bool-cases, Option-cases,
}
use just_another_coding_agen.Recovery.{Exception, has, pushed, children, chain_loop, edges}

pub has-append : (n : ℕ) (ks ls : List ℕ) → has n (ks ++ ls) ≡ (has n ks || has n ls)
has-append n [] ls = refl
has-append n (k ∷ ks) ls = ground (arith, has-append n ks ls)

-- The edges of the exceptions that were not seen, from a number on.
pub unseen_edges : ℕ → List ℕ → List Exception → ℕ
unseen_edges from seen [] = 0
unseen_edges from seen (e ∷ es) =
    (elim (has from seen) [ true ↦ 0 | false ↦ length (pushed e) ])
    + unseen_edges (suc from) seen es

-- What is seen does not count: from a number on, and at it.
degree : ℕ → List Exception → ℕ
degree n es = elim (get_elem? es n) [ none ↦ 0 | some e ↦ length (pushed e) ]

unseen_below :
    (from n : ℕ) (seen : List ℕ) (es : List Exception)
    → n < from
    → unseen_edges from (n ∷ seen) es ≡ unseen_edges from seen es
unfolding unseen_edges
unseen_below from n seen [] h = refl
unseen_below from n seen (e ∷ es) h = ground (arith, unseen_below (suc from) n seen es)

weight : Bool → Exception → ℕ
weight true e = 0
weight false e = length (pushed e)

unseen_edges-cons :
    (from : ℕ) (seen : List ℕ) (e : Exception) (es : List Exception)
    → unseen_edges from seen (e ∷ es) ≡ weight (has from seen) e + unseen_edges (suc from) seen es
unfolding unseen_edges weight
unseen_edges-cons from seen e es = ground arith

unseen_cons :
    (from k n : ℕ) (seen : List ℕ) (es : List Exception)
    → n ≡ from + k
    → has n seen ≡ false
    → unseen_edges from (n ∷ seen) es + degree k es ≡ unseen_edges from seen es
unfolding unseen_edges degree
unseen_cons from k n seen [] at h = refl
unseen_cons from zero n seen (e ∷ es) at h =
    let same : n ≡ from = omega arith in ground (arith, unseen_below (suc from) n seen es)
unseen_cons from (suc k) n seen (e ∷ es) at h = ground (arith, unseen_cons (suc from) k n seen es)

degree-children : (n : ℕ) (heap : List Exception) → length (children heap n) ≡ degree n heap
unfolding children degree
degree-children n heap = elim (Option-cases (get_elem? heap n)) [
  | inl e ↦ ground arith
  | inr (x, e) ↦ ground arith
]

pub edges-unseen : (from : ℕ) (es : List Exception) → unseen_edges from [] es ≡ edges es
unfolding unseen_edges edges
edges-unseen from [] = refl
edges-unseen from (e ∷ es) = ground (arith, edges-unseen (suc from) es)

module _ (heap : List Exception) where
  pub step_seen :
      (rounds current : ℕ) (seen stack : List ℕ)
      → has current seen ≡ true
      → chain_loop heap (suc rounds) seen (current ∷ stack) ≡ chain_loop heap rounds seen stack
  unfolding chain_loop
  step_seen rounds current seen stack h = rw (h, chain_loop) refl

  pub step_new :
      (rounds current : ℕ) (seen stack out : List ℕ)
      → has current seen ≡ false
      → chain_loop heap rounds (current ∷ seen) (children heap current ++ stack) ≡ some out
      → chain_loop heap (suc rounds) seen (current ∷ stack) ≡ some (current ∷ out)
  unfolding chain_loop
  step_new rounds current seen stack out h k = rw (h, k, chain_loop) refl

  pub after_new :
      (rounds current : ℕ) (seen stack out : List ℕ)
      → has current seen ≡ false
      → chain_loop heap (suc rounds) seen (current ∷ stack) ≡ some out
      → (rest : List ℕ) × (chain_loop heap rounds (current ∷ seen) (children heap current ++ stack)
          ≡ some rest)
        × (out ≡ current ∷ rest)
  unfolding chain_loop
  after_new rounds current seen stack out new h =
      elim (Option-cases
        (chain_loop heap rounds (current ∷ seen) (children heap current ++ stack))) [
          | inl failed ↦ cc (rw (new, failed, chain_loop) at h)
          | inr (rest, found) ↦
              let same : some (current ∷ rest) ≡ some out =
                sym (step_new rounds current seen stack rest new found) ∙ h in
              (rest, found, ground arith)
        ]

  -- Enough rounds: one for each entry of the stack and each edge of an exception not seen yet.
  pub loop_returns :
      (rounds : ℕ) (seen stack : List ℕ)
      → length stack + unseen_edges 0 seen heap < rounds
      → (out : List ℕ) × (chain_loop heap rounds seen stack ≡ some out)
  unfolding chain_loop
  loop_returns zero seen stack h = absurd (omega arith)
  loop_returns (suc rounds) seen [] h = ([], refl)
  loop_returns (suc rounds) seen (current ∷ stack) h = elim (Bool-cases (has current seen)) [
    | inl known ↦
        let (out, found) = loop_returns rounds seen stack (omega arith) in
        (out, step_seen rounds current seen stack known ∙ found)
    | inr new ↦
        let (out, found) = loop_returns rounds (current ∷ seen) (children heap current ++ stack) (
          omega (
            arith,
            length-append (children heap current) stack,
            degree-children current heap,
            unseen_cons 0 current current seen heap (omega arith) new,
          )) in
        (current ∷ out, step_new rounds current seen stack out new found)
  ]
