-- ===== src/Net/Tcp/Accept.antt =====
-- net/net.c: what taking the next segment does.
use epona_os.Base.{
  ℕ, ◌+◌, ◌-◌, ◌%◌, ◌^◌, ◌≡◌, refl, sym, ap, ◌∙◌, true, ◌||◌, List, subst, length, leb, ◌==◌,
  if_elim,
}
use epona_os.Net.State.{Net, transmit}
use epona_os.Net.Tcp.{
  http_body_buf_size, send_tcp_segment, store_body, process_payload, print_body_preview, accept,
}
use epona_os.Net.Tcp.Body.{IsValid, Stored, store_body-Stored, store_body-headers}
use epona_os.Net.Tcp.Page.{process_payload-done}

-- What taking the payload `p` with sequence number `seq` in the state `s` does.
pub record Taken (seq : ℕ) (p : List ℕ) (s t : Net) : Type 0 where
  pub stored : Stored p s t
  pub headers : t.http_headers_done ≡ true
  pub ack : t.tcp_ack ≡ (seq + length p) % 2 ^ 32
  pub bytes : t.http_bytes ≡ (s.http_bytes + length p) % 2 ^ 32
  pub state : t.tcp_state ≡ 4

store_body-bytes : (p : List ℕ) (s : Net) → (store_body p s).http_bytes ≡ s.http_bytes
unfolding store_body
store_body-bytes p s =
    if_elim (λ (t : Net). t.http_bytes ≡ s.http_bytes)
      (length p == 0 || leb (http_body_buf_size - 1) s.http_body_len) (λ e. refl) (λ e. refl)

pub accept-Taken :
    (seq : ℕ) (p : List ℕ) (s : Net)
    → s.http_headers_done ≡ true
    → IsValid s
    → Taken seq p s (accept seq p s)
unfolding accept print_body_preview send_tcp_segment transmit
accept-Taken seq p s h v =
    let s0 : Net = record s {
      http_chunks = (s.http_chunks + 1) % 2 ^ 32;
      http_bytes = (s.http_bytes + length p) % 2 ^ 32;
    } in
    let v0 : IsValid s0 = record { fits = v.fits; ended = v.ended } in
    let e : process_payload p s0 ≡ store_body p s0 = process_payload-done p s0 h in
    let st = subst (Stored p s0) (sym e) (store_body-Stored p s0 v0) in
    let hd = ap (λ (x : Net). x.http_headers_done) e ∙ store_body-headers p s0 ∙ h in
    let by = ap (λ (x : Net). x.http_bytes) e ∙ store_body-bytes p s0 in
    let s1 : Net = process_payload p s0 in
    if_elim (Taken seq p s) (s1.http_body_printed || s1.http_body_len == 0)
      (λ _. record {
        stored = record {
          text = st.text;
          valid = record { fits = st.valid.fits; ended = st.valid.ended };
          beyond = st.beyond;
        };
        headers = hd;
        ack = refl;
        bytes = by;
        state = refl;
      })
      (λ _. record {
        stored = record {
          text = st.text;
          valid = record { fits = st.valid.fits; ended = st.valid.ended };
          beyond = st.beyond;
        };
        headers = hd;
        ack = refl;
        bytes = by;
        state = refl;
      })
