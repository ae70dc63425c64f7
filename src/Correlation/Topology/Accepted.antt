-- ===== src/Correlation/Topology/Accepted.antt =====
-- What loading guarantees of a topology that it accepts.
use reconcileflow.Base.{
  ◌≡◌, refl, ap, inl, inr, Bool, true, false, ◌&&◌, ◌||◌, not, Option, none, some, List, [], ◌∷◌,
  ◌++◌, arith, In, here, there, In-cons, Bool-cases, All, All-append, is_empty, is_empty_of_In,
}
use reconcileflow.Base.Order.{Text, nat_ord, list_ord, ◌<=◌, ◌==◌, ==_refl, eq_of_==, contains}
use reconcileflow.Base.Sorting.{sort_by, In-sort_by, All-sort_by}
use reconcileflow.Base.Membership.{contains_of_In}
use reconcileflow.Base.Text.{text}
use reconcileflow.Base.Dict.{Dict}
use reconcileflow.Base.Raised.{Result, ok, raised, ok-injective}
use reconcileflow.Correlation.Topology.{
  authored, Point, Hop, Fraction, HopCeiling, CrossingCeiling, Topology, Refusal,
}
use reconcileflow.Correlation.Topology.Keyed.{hop_ceiling-authored}
use reconcileflow.Correlation.Topology.Ceiling.{hop_ceiling}
use reconcileflow.Correlation.Topology.Rules.{
  by_agent_of, by_agent, refuse_if, untrusted_refusals, presence_refusals, baggage_refusals,
  entry_refusals, point_refusals, is_dense, hop_refusals,
}
use reconcileflow.Correlation.Topology.Toml.{Table, Python, Parsed, ◌>>=◌, done}
use reconcileflow.Correlation.Topology.Parse.{parse}
use reconcileflow.Correlation.Topology.Load.{
  loaded, told, lifted, all_point_refusals, crossings_of, crossed, ceiling_before, points_of,
  load_known_hop, load_hop, load_hops, load_parts, accept, outcome_of, load,
}

append-eq-nil {ℓ} : {A : Type ℓ} (xs ys : List A) → xs ++ ys ≡ [] → (xs ≡ []) × (ys ≡ [])
append-eq-nil [] ys h = (refl, h)
append-eq-nil (x ∷ xs) ys h = absurd (cc h)

clean_join {ℓ κ} :
    {A : Type ℓ} {B : Type κ} (rs : List Refusal) (a : A) (r : Parsed B) {b : B}
    → (ok (rs, a) >>= (λ (x : A). r)) ≡ ok ([], b)
    → (rs ≡ []) × (r ≡ ok ([], b))
clean_join rs a (raised e) h = absurd (cc h)
clean_join {B} rs a (ok (ss, c)) h =
    let q = ok-injective h in
    let n = append-eq-nil rs ss (ap (λ (x : List Refusal × B). x.0) q) in
    let v = ap (λ (x : List Refusal × B). x.1) q in (n.0, rw (n.1, v) refl)

-- A parse that records no refusal recorded none in its parts.
>>=-eq-clean {ℓ κ} :
    {A : Type ℓ} {B : Type κ} (m : Parsed A) (f : A → Parsed B) {b : B}
    → (m >>= f) ≡ ok ([], b)
    → (a : A) × (m ≡ ok ([], a)) × (f a ≡ ok ([], b))
>>=-eq-clean (raised e) f h = absurd (cc h)
>>=-eq-clean (ok (rs, a)) f h = let (n, e) = clean_join rs a (f a) h in (a, rw n refl, e)

In-by_agent_of :
    (name : Text) (ps : List (Text × Text)) → In (name, text "agent") ps → In name (by_agent_of ps)
unfolding by_agent_of
In-by_agent_of name [] m = elim m [ ]
In-by_agent_of name ((n, who) ∷ ps) m = elim (In-cons m) [
  | inl q ↦
      let q0 : name ≡ n = ap (λ (x : Text × Text). x.0) q in
      let q1 : text "agent" ≡ who = ap (λ (x : Text × Text). x.1) q in
      rw (← q1, ==_refl (text "agent"), q0) here
  | inr m' ↦ elim (Bool-cases (who == text "agent")) [
    | inl e ↦ rw e (there (In-by_agent_of name ps m'))
    | inr e ↦ rw e (In-by_agent_of name ps m')
  ]
]

In-by_agent :
    (name : Text) (p : Point) → In (name, text "agent") p.propagates → In name (by_agent p)
unfolding by_agent
In-by_agent name p m = In-sort_by ◌<=◌ (In-by_agent_of name p.propagates m)

refuse_if-eq-nil : (test : Bool) (r : Refusal) → refuse_if test r ≡ [] → test ≡ false
refuse_if-eq-nil true r h = absurd (cc h)
refuse_if-eq-nil false r h = refl

untrusted_refusals-eq-nil :
    (p : Point) (names : List Text) {name : Text}
    → untrusted_refusals p names ≡ []
    → In name names
    → contains name p.sets ≡ true
unfolding untrusted_refusals
untrusted_refusals-eq-nil p [] h m = elim m [ ]
untrusted_refusals-eq-nil p (n ∷ ns) h here =
    let e = refuse_if-eq-nil (not (contains n p.sets)) _ (append-eq-nil _ _ h).0 in ground arith
untrusted_refusals-eq-nil p (n ∷ ns) h (there m) =
    untrusted_refusals-eq-nil p ns (append-eq-nil _ _ h).1 m

-- What the rules guarantee of a point: an agent copies only where it sees the traffic, never
-- `baggage`, and never an identifier from outside that the point does not set anew.
abbrev pub IsSafe : Point → Type 0
IsSafe p =
    (name : Text)
    → In (name, text "agent") p.propagates
    → ((p.visibility == text "kernel") ≡ true)
      × ((name == text "baggage") ≡ false)
      × ((p.trusts_incoming || contains name p.sets) ≡ true)

point_refusals-IsSafe : (p : Point) → point_refusals p ≡ [] → IsSafe p
unfolding point_refusals presence_refusals baggage_refusals entry_refusals by_agent
    untrusted_refusals
point_refusals-IsSafe p h name m =
    let (h12, h3) =
      append-eq-nil (presence_refusals p ++ baggage_refusals p) (entry_refusals p) h in
    let (h1, h2) = append-eq-nil (presence_refusals p) (baggage_refusals p) h12 in
    let m' : In name (by_agent p) = In-by_agent name p m in
    let e : is_empty (by_agent p) ≡ false = is_empty_of_In m' in
    let e1 : (not (is_empty (by_agent p)) && not (p.visibility == text "kernel")) ≡ false =
      refuse_if-eq-nil _ _ h1 in
    let e2 : contains (text "baggage") (by_agent p) ≡ false = refuse_if-eq-nil _ _ h2 in
    (
      elim (Bool-cases (p.visibility == text "kernel")) [
        | inl k ↦ k
        | inr k ↦ let e1' = (rw (e, k) at e1) in absurd (cc e1')
      ],
      elim (Bool-cases (name == text "baggage")) [
        | inr n ↦ n
        | inl b ↦
            let q = eq_of_== name (text "baggage") b in
            let k : contains (text "baggage") (by_agent p) ≡ true = rw (← q) (contains_of_In m') in
            let z = (rw k at e2) in absurd (cc z)
      ],
      elim (Bool-cases p.trusts_incoming) [
        | inl t ↦ rw t refl
        | inr t ↦
            let h3' = (rw t at h3) in
            let k = untrusted_refusals-eq-nil p (by_agent p) h3' m' in rw (t, k) refl
      ],
    )

all_point_refusals-IsSafe :
    (points : Dict Text Point) → all_point_refusals points ≡ [] → All IsSafe (points_of points)
unfolding all_point_refusals points_of
all_point_refusals-IsSafe [] h = tt
all_point_refusals-IsSafe ((name, p) ∷ points) h =
    let (h1, h2) = append-eq-nil _ _ h in
    (point_refusals-IsSafe p h1, all_point_refusals-IsSafe points h2)

-- A ceiling that timing can carry, and whose key, if any, is AUTHORED evidence.
abbrev pub IsCarried : HopCeiling → Type 0
IsCarried c = (is_dense c.density ≡ false) × ((k : Text) → c.key ≡ some k → c.evidence ≡ authored)

told-eq-clean : (rs : List Refusal) {b : Bool} → told rs ≡ ok ([], b) → rs ≡ []
told-eq-clean rs h = ap (λ (x : List Refusal × Bool). x.0) (ok-injective h)

done_value {ℓ} : {A : Type ℓ} {a b : A} → ◌≡◌ {A = Parsed A} (ok ([], a)) (ok ([], b)) → a ≡ b
done_value {A} h = ap (λ (x : List Refusal × A). x.1) (ok-injective h)

lifted-eq-clean {ℓ} : {A : Type ℓ} (r : Result A) {a : A} → lifted r ≡ ok ([], a) → r ≡ ok a
lifted-eq-clean (raised e) h = absurd (cc h)
lifted-eq-clean (ok b) h = ap ok (done_value h)

module _ (py : Python) (general : Option Fraction → Text) where
  load_known_hop-IsCarried :
      (hop : Hop) (src dst : Point) {cs : List HopCeiling}
      → load_known_hop py general hop src dst ≡ ok ([], cs)
      → All IsCarried cs
  unfolding load_known_hop hop_refusals
  load_known_hop-IsCarried hop src dst {cs} h =
      let (c, e, f) = >>=-eq-clean (lifted (hop_ceiling hop src dst)) _ h in
      let (n, f') = clean_join (hop_refusals general hop c src dst) true (done (c ∷ [])) f in
      let q : c ∷ [] ≡ cs = done_value f' in
      rw (← q) (
        (
          refuse_if-eq-nil (is_dense c.density) _ (append-eq-nil _ _ n).0,
          λ k g. hop_ceiling-authored hop src dst c (lifted-eq-clean (hop_ceiling hop src dst) e) g,
        ),
        tt,
      )

  load_hop-IsCarried :
      (hop : Hop) (src dst : Option Point) {cs : List HopCeiling}
      → load_hop py general hop src dst ≡ ok ([], cs)
      → All IsCarried cs
  unfolding load_hop
  load_hop-IsCarried hop (some src) (some dst) h = load_known_hop-IsCarried hop src dst h
  load_hop-IsCarried hop (some src) none {cs} h = let q : [] ≡ cs = done_value h in rw (← q) tt
  load_hop-IsCarried hop none dst {cs} h = let q : [] ≡ cs = done_value h in rw (← q) tt

  load_hops-IsCarried :
      (points : Dict Text Point) (hops : List Hop) {cs : List HopCeiling}
      → load_hops py general points hops ≡ ok ([], cs)
      → All IsCarried cs
  unfolding load_hops
  load_hops-IsCarried points [] {cs} h = let q : [] ≡ cs = done_value h in rw (← q) tt
  load_hops-IsCarried points (hop ∷ hops) {cs = all} h =
      let (c, e, f) = >>=-eq-clean (load_hop py general hop _ _) _ h in
      let (cs, e', f') = >>=-eq-clean (load_hops py general points hops) _ f in
      let q : c ++ cs ≡ all = done_value f' in
      rw (← q) (
        All-append IsCarried c cs (load_hop-IsCarried hop _ _ e)
          (load_hops-IsCarried points hops e'))

  load_parts-IsAccepted :
      (declaration : Table) {points : Dict Text Point} {hops : List Hop} {cs : List HopCeiling}
      → load_parts py general declaration ≡ ok ([], (points, hops, cs))
      → All IsSafe (points_of points) × All IsCarried cs
  unfolding load_parts
  load_parts-IsAccepted declaration {points} {hops} {cs} h =
      let (parts, e, f) = >>=-eq-clean (parse py declaration) _ h in
      let (n, f') =
        clean_join (all_point_refusals parts.0) true
          (do ceilings ← load_hops py general parts.0 parts.1; done (parts.0, parts.1, ceilings))
          f in
      let (ceilings, e'', f'') = >>=-eq-clean (load_hops py general parts.0 parts.1) _ f' in
      let q : ◌≡◌ {A = Dict Text Point × List Hop × List HopCeiling} (parts.0, parts.1, ceilings)
          (points, hops, cs) =
        done_value f'' in
      let q0 : parts.0 ≡ points =
        ap (λ (x : Dict Text Point × List Hop × List HopCeiling). x.0) q in
      let q2 : ceilings ≡ cs = ap (λ (x : Dict Text Point × List Hop × List HopCeiling). x.2) q in
      (
        rw (← q0) (all_point_refusals-IsSafe parts.0 n),
        rw (← q2) (load_hops-IsCarried parts.0 parts.1 e''),
      )

accept-eq-loaded :
    (points : Dict Text Point) (cs : List HopCeiling) (r : Parsed (List CrossingCeiling))
    (t : Topology)
    → accept points cs r ≡ ok (loaded t)
    → (t.points ≡ points_of points) × (t.hops ≡ sort_by ceiling_before cs)
unfolding accept
accept-eq-loaded points cs (raised e) t h = absurd (cc h)
accept-eq-loaded points cs (ok (rs, crossings)) t h = (cc h, cc h)

outcome_of-eq-loaded :
    (r : Parsed (Dict Text Point × List Hop × List HopCeiling)) (t : Topology)
    → outcome_of r ≡ ok (loaded t)
    → (points : Dict Text Point) × (hops : List Hop) × (cs : List HopCeiling) × (r
        ≡ ok ([], (points, hops, cs)))
      × (t.points ≡ points_of points)
      × (t.hops ≡ sort_by ceiling_before cs)
unfolding outcome_of
outcome_of-eq-loaded (raised e) t h = absurd (cc h)
outcome_of-eq-loaded (ok ([], (points, hops, cs))) t h =
    let (p, q) = accept-eq-loaded points cs (crossings_of points (crossed hops)) t h in
    (points, hops, cs, refl, p, q)
outcome_of-eq-loaded (ok (r ∷ rs, parts)) t h = absurd (cc h)

module _ (py : Python) (general : Option Fraction → Text) where
  -- In a topology that loading accepts, an agent copies an identifier only at a point whose kernel
  -- traffic it sees, never `baggage`, and at an untrusted entry only what the point sets anew; and
  -- no hop has a density above `d_max`, or a key without being AUTHORED.
  pub load-IsAccepted :
      (declaration : Table) (t : Topology)
      → load py general declaration ≡ ok (loaded t)
      → All IsSafe t.points × All IsCarried t.hops
  unfolding load
  load-IsAccepted declaration t h =
      let (points, hops, cs, e, p, q) =
        outcome_of-eq-loaded (load_parts py general declaration) t h in
      let (safe, carried) = load_parts-IsAccepted py general declaration e in
      (rw p safe, rw q (All-sort_by IsCarried ceiling_before cs carried))
