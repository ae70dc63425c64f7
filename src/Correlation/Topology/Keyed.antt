-- ===== src/Correlation/Topology/Keyed.antt =====
-- A ceiling that names a key is AUTHORED: what the exact path joins on is evidence of that class.
use reconcileflow.Base.{◌≡◌, refl, sym, ◌∙◌, inl, inr, Bool, true, false, some, All, All-In}
use reconcileflow.Base.Order.{Text, nat_ord, list_ord}
use reconcileflow.Base.Raised.{ok, ok-injective, >>=-eq-ok}
use reconcileflow.Correlation.Topology.{
  Evidence, authored, LinkKind, shared_header, message_key, same_connection, same_socket,
  nested_timing, propagated, inside_process, logged_timing, no_link, Point, Hop, HopCeiling,
}
use reconcileflow.Correlation.Topology.Ceiling.{
  missing, hop_links, first_link, density_of, key_of, hop_ceiling,
}
use reconcileflow.Correlation.Topology.Strongest.{hop_ceiling-IsStrongest}

-- Link kinds that have a key.
abbrev is_keyed : LinkKind → Bool
is_keyed shared_header = true
is_keyed message_key = true
is_keyed _ = false

key_of-is_keyed :
    (src dst : Point) (link : LinkKind) {k : Text}
    → key_of src dst link ≡ some k
    → is_keyed link ≡ true
unfolding key_of
key_of-is_keyed src dst shared_header h = refl
key_of-is_keyed src dst message_key h = refl
key_of-is_keyed src dst same_connection h = absurd (cc h)
key_of-is_keyed src dst same_socket h = absurd (cc h)
key_of-is_keyed src dst nested_timing h = absurd (cc h)
key_of-is_keyed src dst propagated h = absurd (cc h)
key_of-is_keyed src dst inside_process h = absurd (cc h)
key_of-is_keyed src dst logged_timing h = absurd (cc h)
key_of-is_keyed src dst no_link h = absurd (cc h)

hop_links-keyed : All (λ (x : LinkKind × Evidence). is_keyed x.0 ≡ true → x.1 ≡ authored) hop_links
hop_links-keyed = (
  (λ h. refl),
  ((λ h. refl), ((λ h. absurd (cc h)), ((λ h. absurd (cc h)), ((λ h. absurd (cc h)), tt)))),
)

hop_ceiling-key :
    (hop : Hop) (src dst : Point) (c : HopCeiling)
    → hop_ceiling hop src dst ≡ ok c
    → c.key ≡ key_of src dst c.link
unfolding hop_ceiling
hop_ceiling-key hop src dst c h =
    let (density, e, f) =
      >>=-eq-ok (density_of hop src dst (first_link (missing hop src dst) hop_links).0) _ h in
    let q = ok-injective f in rw (← q) refl

-- A hop whose ceiling names a key has AUTHORED evidence.
pub hop_ceiling-authored :
    (hop : Hop) (src dst : Point) (c : HopCeiling) {k : Text}
    → hop_ceiling hop src dst ≡ ok c
    → c.key ≡ some k
    → c.evidence ≡ authored
hop_ceiling-authored hop src dst c h e =
    let keyed = key_of-is_keyed src dst c.link (sym (hop_ceiling-key hop src dst c h) ∙ e) in
    let strongest = hop_ceiling-IsStrongest hop src dst c h in
    elim strongest.reached [
      | inl (m, lacks) ↦
          All-In (λ (x : LinkKind × Evidence). is_keyed x.0 ≡ true → x.1 ≡ authored) m
            hop_links-keyed keyed
      | inr (n, u) ↦ let bad = (rw n at keyed) in absurd (cc bad)
    ]
