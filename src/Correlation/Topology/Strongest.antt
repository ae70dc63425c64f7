-- ===== src/Correlation/Topology/Strongest.antt =====
-- A ceiling is what its name says: the strongest evidence whose conditions all hold.
use reconcileflow.Base.{
  ◌≤◌, ◌≡◌, refl, ◌⊎◌, inl, inr, true, false, List, [], ◌∷◌, arith, In, here, there, Bool-cases,
  is_empty, All, All-In, In-cons, ap,
}
use reconcileflow.Base.Order.{nat_ord, list_ord}
use reconcileflow.Base.Raised.{ok, ok-injective, >>=-eq-ok}
use reconcileflow.Correlation.Topology.{
  Evidence, strength, unresolved, LinkKind, no_link, Reason, Point, Hop, HopCeiling,
}
use reconcileflow.Correlation.Topology.Ceiling.{
  missing, hop_links, first_link, density_of, hop_ceiling,
}

-- What a ceiling states, of the link kinds and of the conditions that each lacks: it is reached, by
-- a link that lacks none, or nothing is; and no link that lacks none is stronger.
pub record IsStrongest (links : List (LinkKind × Evidence)) (lacks : LinkKind → List Reason)
    (link : LinkKind) (evidence : Evidence) : Type 0 where
  pub reached :
      (In (link, evidence) links × (lacks link ≡ [])) ⊎ ((link ≡ no_link) × (evidence ≡ unresolved))
  pub bound :
      (kind : LinkKind) (level : Evidence)
      → In (kind, level) links
      → lacks kind ≡ []
      → strength level ≤ strength evidence

eq_of_is_empty {ℓ} : {A : Type ℓ} (xs : List A) → is_empty xs ≡ true → xs ≡ []
eq_of_is_empty [] h = refl
eq_of_is_empty (x ∷ xs) h = cc

-- Strongest first.
abbrev IsDescending : List (LinkKind × Evidence) → Type 0
IsDescending [] = Unit
IsDescending ((kind, level) ∷ rest) =
    All (λ (x : LinkKind × Evidence). strength x.1 ≤ strength level) rest × IsDescending rest

module _ (lacks : LinkKind → List Reason) where
  first_link-IsStrongest :
      (links : List (LinkKind × Evidence))
      → IsDescending links
      → IsStrongest links lacks (first_link lacks links).0 (first_link lacks links).1
  unfolding first_link
  first_link-IsStrongest [] d = record {
    reached = inr (refl, refl);
    bound = λ kind level m e. elim m [ ];
  }
  first_link-IsStrongest ((k, l) ∷ rest) d = elim (Bool-cases (is_empty (lacks k))) [
    | inl e ↦ rw e (record {
      reached = inl (here, eq_of_is_empty _ e);
      bound = λ kind level m h. elim (In-cons m) [
        | inl q ↦ let q' = ap (λ (x : LinkKind × Evidence). strength x.1) q in omega arith
        | inr m' ↦ All-In (λ (x : LinkKind × Evidence). strength x.1 ≤ strength l) m' d.0
      ];
    })
    | inr e ↦
        let ih = first_link-IsStrongest rest d.1 in
        rw e (record {
          reached = elim ih.reached [ inl (m, h) ↦ inl (there m, h) | inr n ↦ inr n ];
          bound = λ kind level m h. elim (In-cons m) [
            | inl q ↦
                let q' : kind ≡ k = ap (λ (x : LinkKind × Evidence). x.0) q in
                let e' : is_empty (lacks kind) ≡ false = rw q' e in
                let e'' = (rw h at e') in absurd (cc e'')
            | inr m' ↦ ih.bound kind level m' h
          ];
        })
  ]

-- The ceiling of a hop is reached: its link kind lacks none of its conditions, or no kind does and
-- the evidence is UNRESOLVED; and no link kind of `_HOP_LINKS` whose conditions all hold gives
-- stronger evidence.
pub hop_ceiling-IsStrongest :
    (hop : Hop) (src dst : Point) (c : HopCeiling)
    → hop_ceiling hop src dst ≡ ok c
    → IsStrongest hop_links (missing hop src dst) c.link c.evidence
unfolding hop_ceiling
hop_ceiling-IsStrongest hop src dst c h =
    let (density, e, f) =
      >>=-eq-ok (density_of hop src dst (first_link (missing hop src dst) hop_links).0) _ h in
    let q = ok-injective f in
    rw (← q) (first_link-IsStrongest (missing hop src dst) hop_links (omega arith))
