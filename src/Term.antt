-- ===== src/Term.antt =====
-- kernel/term.c: the interpreter of VT100 escape sequences in front of the console. An `int` is its 32-bit
-- pattern, on which the sums of `param_digit` wrap around.
use epona_os.Base.{
  ℕ, zero, suc, ◌+◌, ◌-◌, ◌*◌, ◌/◌, ◌%◌, ◌^◌, ◌≤◌, ◌<◌, bit_and, bit_or, bit_xor, ◌≡◌, refl, sym,
  ap, ◌∙◌, ◌≢◌, ◌↔◌, ◌⊎◌, inl, inr, Bool, true, false, ◌&&◌, ◌||◌, not, Option, none, some, List,
  [], ◌∷◌, ◌++◌, arith, Arr, upd, upd_self, upd_ne, subst, length, length-append, ltb, leb, ◌==◌,
  ==_iff, if◌then◌else◌, Bool-cases, if_elim, extend_down, Option-cases, ltb→lt, &&_split,
  all_below, all_below_sound,
}
use epona_os.Console
use epona_os.Console.{Console, set_color, set_cursor, erase_display, erase_line}
pub mod Bounds
pub mod Safety
pub mod Plain
pub mod Params
pub mod Sequence
pub mod Colors
pub mod Cursor
pub mod Motion
mod Examples

pub data TermState : Type 0 where
  ts_ground ts_escape ts_csi ts_osc : TermState

-- `term_ctx_t`
pub record TermCtx : Type 0 where
  pub state : TermState
  pub params : Arr
  pub nparams : ℕ
  pub param_active : Bool
  pub fg : ℕ
  pub bg : ℕ
  pub saved_row : ℕ
  pub saved_col : ℕ

-- A context and the console it draws on.
pub record Display : Type 0 where
  pub ctx : TermCtx
  pub con : Console

abbrev pub max_params : ℕ
max_params = 16

pub zero_params : (n i : ℕ) → Arr → Arr
zero_params zero i params = params
zero_params (suc n) i params = zero_params n (i + 1) (upd params i 0)

pub params_reset : TermCtx → TermCtx
params_reset ctx = record ctx {
  params = zero_params max_params 0 ctx.params;
  nparams = 0;
  param_active = false;
}

pub param_digit : ℕ → TermCtx → TermCtx
param_digit d ctx0 =
    let ctx1 : TermCtx =
      if ctx0.nparams == 0 then record ctx0 { nparams = 1; param_active = false } else ctx0 in
    let ctx2 : TermCtx =
      if not ctx1.param_active
      then record ctx1 { params = upd ctx1.params (ctx1.nparams - 1) 0; param_active = true }
      else ctx1 in
    if leb ctx2.nparams max_params
    then record ctx2 {
      params =
          upd ctx2.params (ctx2.nparams - 1) ((ctx2.params (ctx2.nparams - 1) * 10 + d) % 2 ^ 32);
    }
    else ctx2

pub param_sep : TermCtx → TermCtx
param_sep ctx =
    if ltb ctx.nparams max_params
    then record ctx {
      nparams = ctx.nparams + 1;
      param_active = false;
      params = upd ctx.params ctx.nparams 0;
    }
    else ctx

abbrev pub between : (lo hi p : ℕ) → Bool
between lo hi p = leb lo p && leb p hi

-- One round of the loop of `apply_sgr`.
pub sgr : ℕ → TermCtx → TermCtx
sgr p ctx =
    if p == 0
    then record ctx { fg = 0x0f; bg = 0x00 }
    else if p == 1
    then record ctx { fg = bit_or ctx.fg 0x08 % 2 ^ 8 }
    else if between 30 37 p
    then record ctx { fg = bit_or (bit_and ctx.fg 0x08) (p - 30) % 2 ^ 8 }
    else if p == 39
    then record ctx { fg = bit_or (bit_and ctx.fg 0x08) 0x07 % 2 ^ 8 }
    else if between 40 47 p
    then record ctx { bg = (p - 40) % 2 ^ 8 }
    else if p == 49
    then record ctx { bg = 0x00 }
    else if between 90 97 p
    then record ctx { fg = (8 + (p - 90)) % 2 ^ 8 }
    else if between 100 107 p
    then record ctx { bg = (8 + (p - 100)) % 2 ^ 8 }
    else ctx

pub sgr_loop : (n i : ℕ) → TermCtx → TermCtx
sgr_loop zero i ctx = ctx
sgr_loop (suc n) i ctx = sgr_loop n (i + 1) (sgr (ctx.params i) ctx)

pub apply_sgr : Display → Display
apply_sgr d =
    let ctx0 : TermCtx = d.ctx in
    let ctx1 : TermCtx = if ctx0.nparams == 0 then record ctx0 { fg = 0x0f; bg = 0x00 } else ctx0 in
    let ctx2 : TermCtx = sgr_loop ctx1.nparams 0 ctx1 in
    record { ctx = ctx2; con = set_color ctx2.fg ctx2.bg d.con }

-- `p > 0` on a 32-bit pattern.
abbrev pub positive : ℕ → Bool
positive p = ltb 0 p && ltb p (2 ^ 31)

-- The parameter `i`, if it is there and positive, and `default` otherwise.
abbrev pub param_or : (i default : ℕ) → TermCtx → ℕ
param_or i default ctx =
    if ltb i ctx.nparams && positive (ctx.params i) then ctx.params i else default

abbrev pub mode_param : TermCtx → ℕ
mode_param ctx = if ltb 0 ctx.nparams then ctx.params 0 else 0

pub csi_dispatch : ℕ → Display → Display
csi_dispatch final d =
    let n0 = param_or 0 1 d.ctx in
    let row = d.con.row % 2 ^ 16 in
    let col = d.con.col % 2 ^ 16 in
    if final == b'A'
    then record d { con = set_cursor ((if leb n0 row then row - n0 else 0) % 2 ^ 16) col d.con }
    else if final == b'B'
    then record d { con = set_cursor ((row + n0) % 2 ^ 16) col d.con }
    else if final == b'C'
    then record d { con = set_cursor row ((col + n0) % 2 ^ 16) d.con }
    else if final == b'D'
    then record d { con = set_cursor row ((if leb n0 col then col - n0 else 0) % 2 ^ 16) d.con }
    else if final == b'H' || final == b'f'
    then record d {
      con =
          set_cursor ((param_or 0 1 d.ctx - 1) % 2 ^ 16) ((param_or 1 1 d.ctx - 1) % 2 ^ 16) d.con;
    }
    else if final == b'J'
    then record d { con = erase_display (mode_param d.ctx) d.con }
    else if final == b'K'
    then record d { con = erase_line (mode_param d.ctx) d.con }
    else if final == b'm'
    then apply_sgr d
    else if final == b's'
    then (let ctx : TermCtx = d.ctx in
        record d { ctx = record ctx { saved_row = row; saved_col = col } })
    else if final == b'u'
    then record d { con = set_cursor d.ctx.saved_row d.ctx.saved_col d.con }
    else d

-- `term_ctx_init`; it leaves the parameters as they are.
pub init : TermCtx → TermCtx
init ctx = record ctx {
  state = ts_ground;
  nparams = 0;
  param_active = false;
  fg = 0x0f;
  bg = 0x00;
  saved_row = 0;
  saved_col = 0;
}

abbrev pub in_state : TermState → Display → Display
in_state st d = let ctx : TermCtx = d.ctx in record d { ctx = record ctx { state = st } }

abbrev pub esc : ℕ
esc = 0x1b

-- The cases of `term_ctx_putc`, for the state TS_CSI.
pub csi_putc : ℕ → Display → Display
csi_putc b d =
    if between b'0' b'9' b
    then record d { ctx = param_digit (b - b'0') d.ctx }
    else if b == b';'
    then record d { ctx = param_sep d.ctx }
    else if between 0x40 0x7e b
    then in_state ts_ground (csi_dispatch b d)
    else d

pub putc_in : TermState → ℕ → Display → Display
putc_in ts_ground b d =
    if b == esc then in_state ts_escape d else record d { con = Console.putc b d.con }
putc_in ts_escape b d =
    if b == b'['
    then in_state ts_csi (record d { ctx = params_reset d.ctx })
    else if b == b']'
    then in_state ts_osc d
    else in_state ts_ground d
putc_in ts_csi b d = csi_putc b d
putc_in ts_osc b d = if b == 0x07 || b == esc then in_state ts_ground d else d

-- `term_ctx_putc`
pub putc : ℕ → Display → Display
putc b d = putc_in d.ctx.state b d

-- `term_ctx_print`
pub print : List ℕ → Display → Display
print [] d = d
print (c ∷ cs) d = print cs (putc c d)

-- The context of the kernel's own console, and `g_default_init`.
pub record Default : Type 0 where
  pub display : Display
  pub default_init : Bool

pub default_ctx : Default → Display
default_ctx g =
    let d : Display = g.display in if not g.default_init then record d { ctx = init d.ctx } else d

pub term_putc : ℕ → Default → Default
term_putc c g = record { display = putc c (default_ctx g); default_init = true }

pub term_print : List ℕ → Default → Default
term_print cs g = record { display = print cs (default_ctx g); default_init = true }

pub term_reset : Default → Default
term_reset g =
    let d : Display = default_ctx g in
    record {
      display = record { ctx = init d.ctx; con = set_color 0x0f 0x00 d.con };
      default_init = true;
    }
