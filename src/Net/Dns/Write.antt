-- ===== src/Net/Dns/Write.antt =====
-- net/net.c: dns_write_name stays in its buffer.
use epona_os.Base.{
  ℕ, ◌+◌, ◌≤◌, ◌<◌, ◌≡◌, refl, ◌∙◌, ◌⊎◌, inl, inr, ◌&&◌, ◌||◌, Option, none, some, List, [], ◌∷◌,
  arith, Arr, upd, upd_ne, ltb, leb, ◌==◌, if◌then◌else◌, if_elim,
}
use epona_os.Net.Dns.{write_name}

-- A number of bytes that is returned fits into the buffer.
abbrev pub AtMost : (out_len : ℕ) → Option ℕ → Type 0
AtMost out_len none = Unit
AtMost out_len (some n) = n ≤ out_len

-- And no byte behind the buffer has been written, whether the call succeeds or fails.
abbrev pub Fits : (out_len : ℕ) → Arr → Option ℕ × Arr → Type 0
Fits out_len out (r, out') = AtMost out_len r × ((j : ℕ) → out_len ≤ j → out' j ≡ out j)

Fits-upd :
    (out_len i v : ℕ) (out : Arr) (r : Option ℕ × Arr)
    → i < out_len
    → Fits out_len (upd out i v) r
    → Fits out_len out r
Fits-upd out_len i v out (r, out') lt (le, beyond) =
    (le, λ j h. beyond j h ∙ upd_ne out i j v (omega arith))

write_name-Fits_from :
    (host : List ℕ) (pos label_len label_pos out_len : ℕ) (out : Arr)
    → pos ≤ out_len
    → (label_len ≡ 0) ⊎ (label_pos < out_len)
    → Fits out_len out (write_name host pos label_len label_pos out_len out)
unfolding write_name
write_name-Fits_from [] pos label_len label_pos out_len out le h =
    let P : Option ℕ × Arr → Type 0 = Fits out_len out in
    if_elim P (label_len == 0) (λ e. (_, λ j k. refl))
      (λ e.
        let inside : label_pos < out_len = ground (arith, h) in
        if_elim P (leb out_len pos)
          (λ e'.
            Fits-upd out_len label_pos label_len out (none, upd out label_pos label_len) inside
              (_, λ j k. refl))
          (λ e'.
            Fits-upd out_len label_pos label_len out
              (some (pos + 1), upd (upd out label_pos label_len) pos 0) inside
              (Fits-upd out_len pos 0 (upd out label_pos label_len)
                (some (pos + 1), upd (upd out label_pos label_len) pos 0) (ground arith)
                (ground arith, λ j k. refl))))
write_name-Fits_from (c ∷ host) pos label_len label_pos out_len out le h =
    let P : Option ℕ × Arr → Type 0 = Fits out_len out in
    let fresh = label_len == 0 in
    let place = if fresh then pos else label_pos in
    let pos' = if fresh then pos + 1 else pos in
    if_elim P (fresh && leb out_len pos) (λ e. (_, λ j k. refl))
      (λ e.
        let inside : place < out_len = ground (arith, h) in
        if_elim P (c == b'.')
          (λ e'.
            if_elim P (fresh || ltb 63 label_len) (λ e1. (_, λ j k. refl))
              (λ e1. Fits-upd out_len place label_len out _ inside (
                write_name-Fits_from host pos' 0 place out_len (upd out place label_len)
                  (ground arith) (inl refl))))
          (λ e'.
            if_elim P (leb out_len pos') (λ e1. (_, λ j k. refl))
              (λ e1.
                if_elim P (ltb 63 (label_len + 1))
                  (λ e2.
                    Fits-upd out_len pos' c out (none, upd out pos' c) (ground arith)
                      (_, λ j k. refl))
                  (λ e2. Fits-upd out_len pos' c out _ (ground arith) (
                    write_name-Fits_from host (pos' + 1) (label_len + 1) place out_len
                      (upd out pos' c) (ground arith) (inr inside))))))

-- `dns_write_name` writes nothing behind the `out_len` bytes of its buffer, on any host name, whether it succeeds or
-- fails, and the number that it returns is at most `out_len`.
pub write_name-Fits :
    (host : List ℕ) (out_len : ℕ) (out : Arr) → Fits out_len out (write_name host 0 0 0 out_len out)
write_name-Fits host out_len out =
    write_name-Fits_from host 0 0 0 out_len out (omega arith) (inl refl)
