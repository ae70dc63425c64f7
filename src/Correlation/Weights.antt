-- ===== src/Correlation/Weights.antt =====
-- What validation keeps of the edges, in src/reconcileflow/correlation/assignment.py.
use reconcileflow.Base.{
  ◌≡◌, refl, inl, inr, Bool, true, false, ◌&&◌, none, some, List, [], ◌∷◌, ◌++◌, arith, Bool-cases,
  Option-cases, In, here, there,
}
use reconcileflow.Base.Int.{ℤ}
use reconcileflow.Base.Order.{Text, nat_ord, list_ord, ◌==◌, ==_refl, contains}
use reconcileflow.Base.Raised.{Result, ok, >>=-eq-ok, ok-injective}
use reconcileflow.M0.Stability.{require}
use reconcileflow.M0.Stable.{require-eq-ok}
use reconcileflow.Correlation.Assignment.{
  Edge, Weights, weight_of, Problem, is_weight, is_admissible, add_edges, validated,
}

weight_of-append_old :
    (x y : Text) (ws vs : Weights) {w : ℤ}
    → weight_of x y ws ≡ some w
    → weight_of x y (ws ++ vs) ≡ some w
unfolding weight_of
weight_of-append_old x y [] vs h = cc
weight_of-append_old x y ((l, r, v) ∷ ws) vs h = elim (Bool-cases (l == x && r == y)) [
  | inl e ↦ rw e (rw e at h)
  | inr e ↦ rw e (weight_of-append_old x y ws vs (rw e at h))
]

weight_of-append_new :
    (x y : Text) (ws : Weights) (w : ℤ)
    → weight_of x y ws ≡ none
    → weight_of x y (ws ++ (x, y, w) ∷ []) ≡ some w
unfolding weight_of
weight_of-append_new x y [] w h = rw (==_refl x, ==_refl y) refl
weight_of-append_new x y ((l, r, v) ∷ ws) w h = elim (Bool-cases (l == x && r == y)) [
  | inl e ↦ let h' = (rw e at h) in absurd (cc h')
  | inr e ↦ rw e (weight_of-append_new x y ws w (rw e at h))
]

-- An edge that was kept, with its weight.
pub record IsKept (lefts rights : List Text) (ws : Weights) (e : Edge) : Type 0 where
  pub left_known : contains e.left lefts ≡ true
  pub right_known : contains e.right rights ≡ true
  pub bounded : is_weight e.weight ≡ true
  pub kept : weight_of e.left e.right ws ≡ some e.weight

require-eq-true {ℓ} :
    {A : Type ℓ} (test : Bool) (rest : Result A) {value : A}
    → require test rest ≡ ok value
    → test ≡ true
require-eq-true true rest e = refl
require-eq-true false rest e = cc

module _ (lefts rights : List Text) where
  add_edges-keeps :
      (es : List Edge) (ws vs : Weights) (x y : Text) {w : ℤ}
      → add_edges lefts rights es ws ≡ ok vs
      → weight_of x y ws ≡ some w
      → weight_of x y vs ≡ some w
  unfolding add_edges
  add_edges-keeps [] ws vs x y h k = rw (← ok-injective h) k
  add_edges-keeps (e ∷ es) ws vs x y h k =
      add_edges-keeps es (ws ++ (e.left, e.right, e.weight) ∷ []) vs x y (require-eq-ok _ _ h)
        (weight_of-append_old x y ws _ k)

  add_edges-IsKept :
      (es : List Edge) (ws vs : Weights) {e : Edge}
      → add_edges lefts rights es ws ≡ ok vs
      → In e es
      → IsKept lefts rights vs e
  unfolding add_edges is_admissible
  add_edges-IsKept [] ws vs h m = elim m [ ]
  add_edges-IsKept (e ∷ es) ws vs h here =
      let t = require-eq-true (is_admissible lefts rights ws e) _ h in
      let fresh : weight_of e.left e.right ws ≡ none =
        elim (Option-cases (weight_of e.left e.right ws)) [
          | inl n ↦ n
          | inr (w, s) ↦ absurd (ground (arith, s))
        ] in
      record {
        left_known = ground arith;
        right_known = ground arith;
        bounded = ground arith;
        kept =
            add_edges-keeps es _ vs e.left e.right (require-eq-ok _ _ h)
              (weight_of-append_new e.left e.right ws e.weight fresh);
      }
  add_edges-IsKept (f ∷ es) ws vs h (there m) =
      add_edges-IsKept es (ws ++ (f.left, f.right, f.weight) ∷ []) vs (require-eq-ok _ _ h) m

-- Every edge of an input that validation accepts joins known ids, has a weight from 1 to
-- `max_weight`, and is found in the weights with its own weight: no edge is lost or overwritten.
pub validated-IsKept :
    (lefts rights : List Text) (edges : List Edge) (margin max_component : ℤ) (p : Problem)
    (e : Edge)
    → validated lefts rights edges margin max_component ≡ ok p
    → In e edges
    → IsKept lefts rights p.weights e
unfolding validated
validated-IsKept lefts rights edges margin max_component p e h m =
    let (ws, k, f) = >>=-eq-ok (add_edges lefts rights edges []) _ (require-eq-ok _ _ h) in
    let q = ok-injective f in rw (← q) (add_edges-IsKept lefts rights edges [] ws k m)
