-- ===== src/Vfs/Lookup.antt =====
-- fs/vfs.c: finding the node of a path.
use epona_os.Base.{
  ℕ, zero, suc, ◌<◌, ◌≡◌, refl, sym, ap, ◌∙◌, ◌≢◌, inl, inr, true, false, ◌||◌, not, List, [], ◌∷◌,
  ◌++◌, arith, length, ◌==◌, Option-cases,
}
use mathlib.Core.List.{append_assoc, append-nil}
use epona_os.Vfs.{
  Nodes, FileSystem, same_text, tokens, is_dir, load_children, find_child, walk, resolve,
}

abbrev pub NoSlash : List ℕ → Type 0
NoSlash [] = Unit
NoSlash (c ∷ cs) = (c ≢ b'/') × NoSlash cs

-- A name: not empty, without a slash.
abbrev pub AllNames : List (List ℕ) → Type 0
AllNames [] = Unit
AllNames (n ∷ ns) = ((0 < length n) × NoSlash n) × AllNames ns

-- The names with a slash between them.
abbrev pub joined : List (List ℕ) → List ℕ
joined [] = []
joined (n ∷ []) = n
joined (n ∷ m ∷ ns) = n ++ (b'/' ∷ joined (m ∷ ns))

-- The rest of a name is put behind the token that has begun.
tokens_name :
    (p : ℕ) (part name rest : List ℕ)
    → NoSlash name
    → tokens (p ∷ part) (name ++ rest) ≡ tokens (p ∷ (part ++ name)) rest
unfolding tokens
tokens_name p part [] rest ns = ap (λ l. tokens (p ∷ l) rest) (sym (append-nil part))
tokens_name p part (c ∷ name) rest (n, ns) =
    let e : (c == b'/') ≡ false = ground (arith, n) in
    rw e (tokens_name p (part ++ (c ∷ [])) name rest ns)
    ∙ ap (λ l. tokens (p ∷ l) rest) (append_assoc part (c ∷ []) name)

tokens_first :
    (c : ℕ) (name rest : List ℕ)
    → NoSlash (c ∷ name)
    → tokens [] ((c ∷ name) ++ rest) ≡ tokens (c ∷ name) rest
unfolding tokens
tokens_first c name rest (n, ns) =
    let e : (c == b'/') ≡ false = ground (arith, n) in rw e (tokens_name c [] name rest ns)

tokens_slash :
    (c : ℕ) (name rest : List ℕ) → tokens (c ∷ name) (b'/' ∷ rest) ≡ (c ∷ name) ∷ tokens [] rest
unfolding tokens
tokens_slash c name rest = refl

-- The tokens of a path are the names it is joined of.
pub tokens-joined : (ns : List (List ℕ)) → AllNames ns → tokens [] (joined ns) ≡ ns
unfolding tokens
tokens-joined [] all = refl
tokens-joined ([] ∷ ns) ((lt, plain), all) = absurd (omega arith)
tokens-joined ((c ∷ n) ∷ []) ((lt, plain), all) =
    ap (tokens []) (sym (append-nil (c ∷ n))) ∙ tokens_first c n [] plain
tokens-joined ((c ∷ n) ∷ m ∷ ns) ((lt, plain), all) =
    tokens_first c n (b'/' ∷ joined (m ∷ ns)) plain
    ∙ tokens_slash c n (joined (m ∷ ns))
    ∙ ap (λ l. (c ∷ n) ∷ l) (tokens-joined (m ∷ ns) all)

same_text_refl : (a : List ℕ) → same_text a a ≡ true
unfolding same_text
same_text_refl [] = refl
same_text_refl (x ∷ a) = ground (arith, same_text_refl a)

-- The nodes follow one another, from `child` on.
abbrev pub Linked : Nodes → (child : ℕ) → List ℕ → Type 0
Linked nodes child [] = Unit
Linked nodes child (a ∷ rest) = (child ≡ a) × (a ≢ 0) × Linked nodes (nodes a).next rest

-- None of these nodes has the name.
abbrev pub AllUnlike : Nodes → List ℕ → List ℕ → Type 0
AllUnlike nodes name [] = Unit
AllUnlike nodes name (a ∷ rest) =
    (same_text (nodes a).name name ≡ false) × AllUnlike nodes name rest

find_child_lem :
    (fuel child a : ℕ) (before name : List ℕ) (nodes : Nodes)
    → Linked nodes child (before ++ (a ∷ []))
    → AllUnlike nodes name before
    → (nodes a).name ≡ name
    → length before < fuel
    → find_child fuel child name nodes ≡ a
unfolding find_child
find_child_lem zero child a before name nodes l u e lt = absurd (omega arith)
find_child_lem (suc fuel) child a [] name nodes (h, n, l) u e lt =
    let e0 : (child == 0) ≡ false = ground arith in
    let same : same_text (nodes child).name name ≡ true =
      ap (λ k. same_text (nodes k).name name) h
      ∙ ap (λ t. same_text t name) e
      ∙ same_text_refl name in
    rw (e0, same) h
find_child_lem (suc fuel) child a (b ∷ before) name nodes (h, n, l) (u, us) e lt =
    let e0 : (child == 0) ≡ false = ground arith in
    let other : same_text (nodes child).name name ≡ false =
      ap (λ k. same_text (nodes k).name name) h ∙ u in
    rw (e0, other)
      (ap (λ k. find_child fuel (nodes k).next name nodes) h
        ∙ find_child_lem fuel (nodes b).next a before name nodes l us e (omega arith))

-- `a` is the first node of its name in the directory `curr`, whose children have been read; `before` are
-- the entries before it.
pub record IsChild (fuel : ℕ) (nodes : Nodes) (curr : ℕ) (before : List ℕ) (a : ℕ) : Type 0 where
  pub here : curr ≢ 0
  pub dir : is_dir (nodes curr) ≡ true
  pub loaded : (nodes curr).children ≢ 0
  pub linked : Linked nodes (nodes curr).children (before ++ (a ∷ []))
  pub there : a ≢ 0
  pub unlike : AllUnlike nodes (nodes a).name before
  pub few : length before < fuel

-- A way down the tree: at each step the entries before the node, and the node.
abbrev pub Leads : (fuel : ℕ) → Nodes → ℕ → List (List ℕ × ℕ) → Type 0
Leads fuel nodes curr [] = Unit
Leads fuel nodes curr ((before, a) ∷ way) =
    IsChild fuel nodes curr before a × Leads fuel nodes a way

abbrev pub end_of : ℕ → List (List ℕ × ℕ) → ℕ
end_of curr [] = curr
end_of curr ((before, a) ∷ way) = end_of a way

abbrev pub names : Nodes → List (List ℕ × ℕ) → List (List ℕ)
names nodes [] = []
names nodes ((before, a) ∷ way) = (nodes a).name ∷ names nodes way

load_children-loaded :
    (fs : FileSystem) (curr : ℕ) (nodes : Nodes)
    → (nodes curr).children ≢ 0
    → load_children fs curr nodes ≡ nodes
unfolding load_children
load_children-loaded fs curr nodes h =
    let full : ((nodes curr).children == 0) ≡ false = ground arith in
    elim (Option-cases fs.readdir) [
      | inl e ↦ rw (e, load_children) refl
      | inr (readdir, e) ↦ rw (e, load_children, full) refl
    ]

walk_lem :
    (fuel : ℕ) (fs : FileSystem) (way : List (List ℕ × ℕ)) (curr : ℕ) (nodes : Nodes)
    → Leads fuel nodes curr way
    → walk fuel fs (names nodes way) curr nodes ≡ (end_of curr way, nodes)
unfolding walk
walk_lem fuel fs [] curr nodes l = refl
walk_lem fuel fs ((before, a) ∷ way) curr nodes (c, l) =
    let loaded = load_children-loaded fs curr nodes c.loaded in
    let found =
      find_child_lem fuel (nodes curr).children a before (nodes a).name nodes c.linked c.unlike refl
        c.few in
    let free : (curr == 0 || not (is_dir (nodes curr))) ≡ false = ground (arith, c.here, c.dir) in
    let there : (a == 0) ≡ false = ground (arith, c.there) in
    rw (free, loaded, found, there) (walk_lem fuel fs way a nodes l)

-- The path of names down a tree whose directories have been read leads to the node at its end, when no
-- directory on the way has an earlier entry of the same name, and changes nothing.
pub resolve_lem :
    (fuel : ℕ) (fs : FileSystem) (way : List (List ℕ × ℕ)) (nodes : Nodes)
    → Leads fuel nodes fs.root way
    → AllNames (names nodes way)
    → resolve fuel fs (joined (names nodes way)) nodes ≡ (end_of fs.root way, nodes)
unfolding resolve
resolve_lem fuel fs way nodes l all =
    ap (λ ps. walk fuel fs ps fs.root nodes) (tokens-joined (names nodes way) all)
    ∙ walk_lem fuel fs way fs.root nodes l
