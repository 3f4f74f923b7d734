-- ===== src/Term/Bounds.antt =====
-- kernel/term.c: the steps of the interpreter on its parameters and colours stay in their bounds.
use epona_os.Base.{
  ℕ, zero, suc, ◌+◌, ◌-◌, ◌%◌, ◌^◌, ◌≤◌, ◌<◌, bit_and, bit_or, ◌≡◌, refl, sym, ap, ◌∙◌, true, false,
  ◌&&◌, arith, Arr, upd, ltb, ltb→lt, &&_split, all_below, all_below_sound,
}
use epona_os.Term.{
  TermCtx, max_params, zero_params, params_reset, param_digit, param_sep, sgr, sgr_loop,
}

pub record IsValid (c : TermCtx) : Type 0 where
  pub counted : c.nparams ≤ max_params
  pub started : c.nparams ≡ 0 → c.param_active ≡ false
  pub fg_in : c.fg < 16
  pub bg_in : c.bg < 16

-- What a step from context `c` to context `c'` keeps: the 16 words of `params` are all it writes there.
pub record Kept (c c' : TermCtx) : Type 0 where
  pub valid : IsValid c'
  pub beyond : (i : ℕ) → max_params ≤ i → c'.params i ≡ c.params i

zero_params-beyond : (n i : ℕ) (a : Arr) (j : ℕ) → i + n ≤ j → zero_params n i a j ≡ a j
unfolding zero_params
zero_params-beyond zero i a j h = refl
zero_params-beyond (suc n) i a j h = ground (arith, zero_params-beyond n (i + 1) (upd a i 0) j)

pub params_reset-Kept : (c : TermCtx) → IsValid c → Kept c (params_reset c)
unfolding params_reset
params_reset-Kept c v = record {
  valid = record { counted = omega arith; started = λ e. refl; fg_in = v.fg_in; bg_in = v.bg_in };
  beyond = λ i h. zero_params-beyond max_params 0 c.params i h;
}

-- The bits of the bright flag, at every colour.
bright_table :
    all_below 16 (λ c.
      ltb (bit_or c 8 % 2 ^ 8) 16 && all_below 8 (λ x. ltb (bit_or (bit_and c 8) x % 2 ^ 8) 16))
    ≡ true
unfolding all_below
bright_table = refl

bright : (c : ℕ) → c < 16 → bit_or c 8 % 2 ^ 8 < 16
bright c h = ltb→lt _ _ (&&_split _ _ (all_below_sound 16 _ c bright_table h)).0

hue : (c x : ℕ) → c < 16 → x < 8 → bit_or (bit_and c 8) x % 2 ^ 8 < 16
hue c x h k =
    ltb→lt _ _ (all_below_sound 8 _ x (&&_split _ _ (all_below_sound 16 _ c bright_table h)).1 k)

-- Colours alone.
abbrev pub Colored : TermCtx → TermCtx → Type 0
Colored c c' =
    (c'.fg < 16)
    × (c'.bg < 16)
    × (c'.nparams ≡ c.nparams)
    × (c'.param_active ≡ c.param_active)
    × (c'.params ≡ c.params)

sgr-Colored : (p : ℕ) (c : TermCtx) → c.fg < 16 → c.bg < 16 → Colored c (sgr p c)
unfolding sgr
sgr-Colored p c f b = ground (arith, bright c.fg f, hue c.fg (p - 30) f, hue c.fg 7 f)

-- The whole loop of `apply_sgr`.
pub sgr_loop-Colored : (n i : ℕ) (c : TermCtx) → c.fg < 16 → c.bg < 16 → Colored c (sgr_loop n i c)
unfolding sgr_loop
sgr_loop-Colored zero i c f b = (f, b, refl, refl, refl)
sgr_loop-Colored (suc n) i c f b =
    let (f1, b1, n1, a1, p1) = sgr-Colored (c.params i) c f b in
    let (f2, b2, n2, a2, p2) = sgr_loop-Colored n (i + 1) (sgr (c.params i) c) f1 b1 in
    (f2, b2, n2 ∙ n1, a2 ∙ a1, p2 ∙ p1)

pub Colored-Kept : (c c' : TermCtx) → IsValid c → Colored c c' → Kept c c'
Colored-Kept c c' v (f, b, n, a, p) = record {
  valid = record {
    counted = omega (arith, v.counted);
    started = λ e. a ∙ v.started (sym n ∙ e);
    fg_in = f;
    bg_in = b;
  };
  beyond = λ i h. ap (λ q. q i) p;
}

pub param_digit-Kept : (x : ℕ) (c : TermCtx) → IsValid c → Kept c (param_digit x c)
unfolding param_digit
param_digit-Kept x c v = record {
  valid = record {
    counted = ground (arith, v.counted);
    started = ground (arith, v.counted);
    fg_in = ground (arith, v.fg_in);
    bg_in = ground (arith, v.bg_in);
  };
  beyond = λ i h. ground (arith, v.counted);
}

pub param_sep-Kept : (c : TermCtx) → IsValid c → Kept c (param_sep c)
unfolding param_sep
param_sep-Kept c v = record {
  valid = record {
    counted = ground (arith, v.counted);
    started = ground (arith, v.started);
    fg_in = ground (arith, v.fg_in);
    bg_in = ground (arith, v.bg_in);
  };
  beyond = λ i h. ground (arith, v.counted);
}
