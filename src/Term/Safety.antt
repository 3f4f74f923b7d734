-- ===== src/Term/Safety.antt =====
-- kernel/term.c: whatever bytes are printed, the interpreter writes no parameter out of bounds, keeps its
-- colours in range and leaves the cursor on the screen.
use epona_os.Base.{
  ℕ, ◌-◌, ◌≡◌, refl, ◌∙◌, ◌⊎◌, inl, inr, true, false, ◌||◌, List, [], ◌∷◌, arith, ◌==◌, Bool-cases,
  if_elim,
}
use epona_os.Console.{Console, set_color, set_cursor}
use epona_os.Console.Bounds.{
  OnScreen, Safe, Safe-refl, Safe-trans, putc-Safe, set_cursor-Safe, set_color-Safe,
}
use epona_os.Console.Erase.{erase_display-Safe, erase_line-Safe}
use epona_os.Term.{
  TermState, ts_ground, ts_escape, ts_csi, ts_osc, TermCtx, Display, params_reset, sgr_loop,
  apply_sgr, csi_dispatch, in_state, csi_putc, putc_in, putc, print, between, mode_param, esc,
}
use epona_os.Term.Bounds.{
  IsValid, Kept, params_reset-Kept, Colored, sgr_loop-Colored, Colored-Kept, param_digit-Kept,
  param_sep-Kept,
}

-- What a step of the interpreter from `d` to `d'` keeps.
pub record Sound (d d' : Display) : Type 0 where
  pub ctx : Kept d.ctx d'.ctx
  pub con : Safe d.con d'.con

pub Kept-refl : (c : TermCtx) → IsValid c → Kept c c
Kept-refl c v = record { valid = v; beyond = λ i h. refl }

Sound-trans : (a b c : Display) → Sound a b → Sound b c → Sound a c
Sound-trans a b c h k = record {
  ctx = record { valid = k.ctx.valid; beyond = λ i le. k.ctx.beyond i le ∙ h.ctx.beyond i le };
  con = Safe-trans a.con b.con c.con h.con k.con;
}

-- A step that changes the console alone.
con-Sound :
    (d : Display) (con : Console)
    → IsValid d.ctx
    → Safe d.con con
    → Sound d (record d { con = con })
con-Sound d con v h = record { ctx = Kept-refl d.ctx v; con = h }

-- A step that changes the context alone, and its state.
ctx-Sound :
    (d : Display) (c : TermCtx) (st : TermState)
    → OnScreen d.con
    → Kept d.ctx c
    → Sound d (record d { ctx = record c { state = st } })
ctx-Sound d c st h k = record {
  ctx = record {
    valid = record {
      counted = k.valid.counted;
      started = k.valid.started;
      fg_in = k.valid.fg_in;
      bg_in = k.valid.bg_in;
    };
    beyond = k.beyond;
  };
  con = Safe-refl d.con h;
}

apply_sgr-Sound : (d : Display) → IsValid d.ctx → OnScreen d.con → Sound d (apply_sgr d)
unfolding apply_sgr
apply_sgr-Sound d v h = from (Bool-cases (d.ctx.nparams == 0))
  where
    colored : (c : TermCtx) → Colored d.ctx c → Colored d.ctx (sgr_loop c.nparams 0 c)
    colored c (f, b, n, a, p) =
        let (f', b', n', a', p') = sgr_loop-Colored c.nparams 0 c f b in
        (f', b', n' ∙ n, a' ∙ a, p' ∙ p)

    done :
        (c : TermCtx)
        → Colored d.ctx c
        → Sound d (record { ctx = c; con = set_color c.fg c.bg d.con })
    done c k = record { ctx = Colored-Kept d.ctx c v k; con = set_color-Safe c.fg c.bg d.con h }

    from : ((d.ctx.nparams == 0) ≡ true) ⊎ ((d.ctx.nparams == 0) ≡ false) → Sound d (apply_sgr d)
    from (inl e) = rw e (done _ (colored _ (omega arith, omega arith, refl, refl, refl)))
    from (inr e) = rw e (done _ (colored _ (v.fg_in, v.bg_in, refl, refl, refl)))

csi_dispatch-Sound :
    (final : ℕ) (d : Display) → IsValid d.ctx → OnScreen d.con → Sound d (csi_dispatch final d)
unfolding csi_dispatch
csi_dispatch-Sound final d v h =
    let move : (row col : ℕ) → Sound d (record d { con = set_cursor row col d.con }) =
      λ row col. con-Sound d _ v (set_cursor-Safe row col d.con) in
    if_elim (Sound d) (final == b'A') (λ e. move _ _)
      (λ e.
        if_elim (Sound d) (final == b'B') (λ e. move _ _)
          (λ e.
            if_elim (Sound d) (final == b'C') (λ e. move _ _)
              (λ e.
                if_elim (Sound d) (final == b'D') (λ e. move _ _)
                  (λ e.
                    if_elim (Sound d) (final == b'H' || final == b'f') (λ e. move _ _)
                      (λ e.
                        if_elim (Sound d) (final == b'J')
                          (λ e. con-Sound d _ v (erase_display-Safe (mode_param d.ctx) d.con h))
                          (λ e.
                            if_elim (Sound d) (final == b'K')
                              (λ e. con-Sound d _ v (erase_line-Safe (mode_param d.ctx) d.con h))
                              (λ e.
                                if_elim (Sound d) (final == b'm') (λ e. apply_sgr-Sound d v h)
                                  (λ e.
                                    if_elim (Sound d) (final == b's') (λ e. saved)
                                      (λ e.
                                        if_elim (Sound d) (final == b'u') (λ e. move _ _)
                                          (λ e. con-Sound d d.con v (Safe-refl d.con h)))))))))))
  where
    saved :
        {row col : ℕ}
        → Sound d (
            let ctx : TermCtx = d.ctx in
            record d { ctx = record ctx { saved_row = row; saved_col = col } })
    saved = record {
      ctx = record {
        valid = record {
          counted = v.counted;
          started = v.started;
          fg_in = v.fg_in;
          bg_in = v.bg_in;
        };
        beyond = λ i le. refl;
      };
      con = Safe-refl d.con h;
    }

-- A step, and then a change of state.
in_state-Sound : (st : TermState) (d d' : Display) → Sound d d' → Sound d (in_state st d')
in_state-Sound st d d' k = record {
  ctx = record {
    valid = record {
      counted = k.ctx.valid.counted;
      started = k.ctx.valid.started;
      fg_in = k.ctx.valid.fg_in;
      bg_in = k.ctx.valid.bg_in;
    };
    beyond = k.ctx.beyond;
  };
  con = k.con;
}

putc_in-Sound :
    (st : TermState) (b : ℕ) (d : Display)
    → IsValid d.ctx
    → OnScreen d.con
    → Sound d (putc_in st b d)
unfolding putc_in csi_putc
putc_in-Sound ts_ground b d v h =
    if_elim (Sound d) (b == esc) (λ e. ctx-Sound d d.ctx ts_escape h (Kept-refl d.ctx v))
      (λ e. con-Sound d _ v (putc-Safe b d.con h))
putc_in-Sound ts_escape b d v h =
    if_elim (Sound d) (b == b'[')
      (λ e. ctx-Sound d (params_reset d.ctx) ts_csi h (params_reset-Kept d.ctx v))
      (λ e.
        if_elim (Sound d) (b == b']') (λ e. ctx-Sound d d.ctx ts_osc h (Kept-refl d.ctx v))
          (λ e. ctx-Sound d d.ctx ts_ground h (Kept-refl d.ctx v)))
putc_in-Sound ts_csi b d v h =
    if_elim (Sound d) (between b'0' b'9' b)
      (λ e. record { ctx = param_digit-Kept (b - b'0') d.ctx v; con = Safe-refl d.con h })
      (λ e.
        if_elim (Sound d) (b == b';')
          (λ e. record { ctx = param_sep-Kept d.ctx v; con = Safe-refl d.con h })
          (λ e.
            if_elim (Sound d) (between 0x40 0x7e b)
              (λ e. in_state-Sound ts_ground d _ (csi_dispatch-Sound b d v h))
              (λ e. con-Sound d d.con v (Safe-refl d.con h))))
putc_in-Sound ts_osc b d v h =
    if_elim (Sound d) (b == 0x07 || b == esc)
      (λ e. ctx-Sound d d.ctx ts_ground h (Kept-refl d.ctx v))
      (λ e. con-Sound d d.con v (Safe-refl d.con h))

-- Whatever bytes are printed, from a valid context in any state: the context stays valid, so that it has at
-- most 16 parameters and colours below 16, no word behind the 16 parameters is written, the cursor stays
-- on the screen, and no memory behind the 2000 cells of the screen is written.
pub print-Sound :
    (cs : List ℕ) (d : Display) → IsValid d.ctx → OnScreen d.con → Sound d (print cs d)
unfolding print putc
print-Sound [] d v h = con-Sound d d.con v (Safe-refl d.con h)
print-Sound (c ∷ cs) d v h =
    let one = putc_in-Sound d.ctx.state c d v h in
    Sound-trans d (putc c d) (print cs (putc c d)) one
      (print-Sound cs (putc c d) one.ctx.valid one.con.on_screen)
