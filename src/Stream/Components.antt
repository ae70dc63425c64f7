-- ===== src/Stream/Components.antt =====
-- `_components` of src/reconcileflow/stream.py: the open records of a block, grouped by union-find.
use reconcileflow.Base.{ℕ, zero, suc, List, [], ◌∷◌, ◌++◌, length, if◌then◌else◌, true, false}
use reconcileflow.Base.Order.{Text, nat_ord, list_ord, ◌<=◌, ◌==◌}
use reconcileflow.Base.Sorting.{sort_by}
use reconcileflow.Base.Dict.{Dict, keys, find_or, alter}
use reconcileflow.Models.{Record}
use reconcileflow.Stream.{Side, left, right, BusinessKey, key_ord, BlockState}
use reconcileflow.Stream.Watermark.{Settings, is_linked}

abbrev pub Parents : Type 0
Parents = Dict BusinessKey BusinessKey

-- Each open record is its own parent.
unfoldable pub own_parents : Side → Dict Text Record → Parents
own_parents side [] = []
own_parents side ((id, _) ∷ pool) = ((side, id), (side, id)) ∷ own_parents side pool

-- `root`: the walk up the parents. A walk is no longer than the number of records, the fuel.
unfoldable pub root_from : ℕ → Parents → BusinessKey → BusinessKey
root_from zero parents key = key
root_from (suc fuel) parents key = elim (find_or key key parents == key) [
  | true ↦ key
  | false ↦ root_from fuel parents (find_or key key parents)
]

unfoldable pub root : Parents → BusinessKey → BusinessKey
root parents = root_from (length parents) parents

-- `parent[root(right)] = root(left)` for each linked pair.
unfoldable pub unite : Settings → Text → Record → List (Text × Record) → Parents → Parents
unite s left_id l [] parents = parents
unite s left_id l ((right_id, r) ∷ rights) parents =
    let target = root parents (left, left_id) in
    let merged = alter target (root parents (right, right_id)) (λ _. target) parents in
    unite s left_id l rights (if is_linked s l r then merged else parents)

unfoldable pub unite_all :
    Settings → List (Text × Record) → List (Text × Record) → Parents → Parents
unite_all s [] rights parents = parents
unite_all s ((left_id, l) ∷ lefts) rights parents =
    unite_all s lefts rights (unite s left_id l rights parents)

-- `groups.setdefault(root(key), []).append(key)`
unfoldable pub group :
    Parents
    → List BusinessKey
    → Dict BusinessKey (List BusinessKey)
    → Dict BusinessKey (List BusinessKey)
group parents [] groups = groups
group parents (key ∷ ks) groups =
    group parents ks (alter [] (root parents key) (λ g. g ++ key ∷ []) groups)

unfoldable pub values {ℓ κ} : {K : Type ℓ} {V : Type κ} → Dict K V → List V
values [] = []
values ((_, v) ∷ d) = v ∷ values d

unfoldable pub components : Settings → BlockState → List (List BusinessKey)
components s b =
    let start = own_parents left b.pool.on_left ++ own_parents right b.pool.on_right in
    let parents = unite_all s b.pool.on_left b.pool.on_right start in
    sort_by ◌<=◌ (values (group parents (sort_by ◌<=◌ (keys parents)) []))
