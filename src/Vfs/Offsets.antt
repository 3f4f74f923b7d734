-- ===== src/Vfs/Offsets.antt =====
-- fs/vfs.c: the offset of an open file stays in the file.
use epona_os.Base.{
  ℕ, ◌+◌, ◌-◌, ◌%◌, ◌^◌, ◌≤◌, ◌<◌, ◌≡◌, refl, ◌⊎◌, inl, inr, true, ◌||◌, arith, ltb, ◌==◌,
  if◌then◌else◌, Bool-cases, if_elim,
}
use epona_os.Vfs.{Nodes, is_negative}
use epona_os.Vfs.Calls.{File, read_file}

-- What reading `size` bytes does to an open file of `end` bytes.
pub record Advances (end size : ℕ) (f : File) (r : ℕ × File) : Type 0 where
  pub node_same : r.1.node ≡ f.node
  pub inside : r.1.offset ≤ end
  pub wanted : r.1.offset ≤ f.offset + size
  pub by_result :
      ((is_negative r.0 ≡ true) × (r.1.offset ≡ f.offset)) ⊎ (r.1.offset ≡ f.offset + r.0)

-- Reading from an offset inside the file advances the offset by what is returned, or leaves it on an error,
-- and keeps it inside and within what was wanted, also when the file system says that it gave more.
pub read_file_lem :
    (got : ℕ → ℕ → ℕ) (size : ℕ) (nodes : Nodes) (f : File)
    → f.offset ≤ (nodes f.node).size
    → (nodes f.node).size < 2 ^ 32
    → Advances (nodes f.node).size size f (read_file got size nodes f)
unfolding read_file
read_file_lem got size nodes f inside small =
    let end : ℕ = (nodes f.node).size in
    let remain : ℕ = (end + 2 ^ 64 - f.offset) % 2 ^ 64 in
    let left : remain ≡ end - f.offset = omega arith in
    let wanted : ℕ = if ltb remain size then remain else size in
    let few : wanted ≤ end - f.offset = ground arith in
    let few' : wanted ≤ size = ground arith in
    let ret : ℕ = got f.offset wanted in
    let kept : ℕ = if ltb wanted ret then wanted else ret in
    let most : kept ≤ wanted = ground arith in
    let unmoved : (ret == 0 || is_negative ret) ≡ true
        → ((is_negative ret ≡ true) × (f.offset ≡ f.offset)) ⊎ (f.offset ≡ f.offset + ret) =
      λ e. elim (Bool-cases (is_negative ret)) [
        | inl n ↦ inl (n, refl)
        | inr p ↦ inr (let z : ret ≡ 0 = ground (arith, e, p) in omega (arith, z))
      ] in
    if_elim (Advances end size f) (ret == 0 || is_negative ret)
      (λ e. record {
        node_same = refl;
        inside = inside;
        wanted = omega arith;
        by_result = unmoved e;
      })
      (λ e. record {
        node_same = refl;
        inside = omega arith;
        wanted = omega arith;
        by_result = inr (omega arith);
      })
