-- ===== src/Console/History.antt =====
-- The history of instructions of Mitra/mitra_cpu.c: a ring of entries. The source has no call of
-- `inst_hist`. What `get_uint` makes of the text of a command, and whether `calloc` succeeds, are
-- arguments.
pub mod Ring
use mitra_15_for_simh.Prelude.{
  ℕ, zero, suc, ◌+◌, ◌-◌, ◌*◌, ◌%◌, ◌<◌, ◌≤◌, ◌≡◌, ◌∙◌, refl, ap, inl, inr, Bool, Bool-cases, true,
  false, Option, none, some, List, [], ◌∷◌, ◌==◌, leb, ltb, ==_refl, arith, if◌then◌else◌, bit_or,
  u16, not, ◌&&◌, ◌||◌,
}
use mitra_15_for_simh.State.{CpuState, update, reg_a, reg_e, reg_x, reg_l, reg_g, reg_v, reg_w}
use mitra_15_for_simh.Status.{Status, scpe_ok, scpe_arg, scpe_nofnc, scpe_mem}

-- InstHistory: what `inst_hist` sets of it, but S, MREG and ea.
pub record InstHistory : Type 0 where
  pub typ : ℕ
  pub p : ℕ
  pub a : ℕ
  pub e : ℕ
  pub x : ℕ
  pub l : ℕ
  pub g : ℕ
  pub u : ℕ
  pub v : ℕ
  pub w : ℕ

-- `hst`, `hst_p`, `hst_lnt` and `hst_exclude`.
pub record History : Type 0 where
  pub hst : ℕ → InstHistory
  pub hst_p : ℕ
  pub hst_lnt : ℕ
  pub hst_exclude : ℕ

-- The arguments of a call of `inst_hist` that it uses, with what it reads.
pub record Call : Type 0 where
  pub pc : ℕ
  pub tp : ℕ
  pub cpu_mode : ℕ
  pub state : CpuState

unfoldable pub entry : Call → InstHistory
entry c = record {
  typ = bit_or (bit_or c.tp (c.state.ind.ov * 16)) (c.cpu_mode * 32);
  p = u16 c.pc;
  a = c.state.reg reg_a;
  e = c.state.reg reg_e;
  x = c.state.reg reg_x;
  l = c.state.reg reg_l;
  g = c.state.reg reg_g;
  u = c.state.u;
  v = c.state.reg reg_v;
  w = c.state.reg reg_w;
}

-- The index after the last one that was written.
unfoldable pub next_index : History → ℕ
next_index h = if leb h.hst_lnt (h.hst_p + 1) then 0 else h.hst_p + 1

-- None where `hst` is NULL.
unfoldable pub inst_hist : Call → History → Option History
unfolding next_index
inst_hist c h =
    if c.cpu_mode == h.hst_exclude
    then some h
    else if h.hst_lnt == 0
    then none
    else some (record h { hst = update h.hst (next_index h) (entry c); hst_p = next_index h })

abbrev pub blank : InstHistory → InstHistory
blank i = record i { typ = 0 }

-- `argument` is none for no text, and has none inside where `get_uint` fails.
unfoldable pub cpu_set_hist :
    (argument : Option (Option ℕ)) (exclude : ℕ) (allocated : Bool) → History → Status × History
cpu_set_hist none exclude allocated h = (
  scpe_ok,
  record h { hst = λ i. if ltb i h.hst_lnt then blank (h.hst i) else h.hst i; hst_p = 0 },
)
cpu_set_hist (some none) exclude allocated h = (scpe_arg, h)
cpu_set_hist (some (some lnt)) exclude allocated h =
    let zeros : InstHistory = record {
      typ = 0;
      p = 0;
      a = 0;
      e = 0;
      x = 0;
      l = 0;
      g = 0;
      u = 0;
      v = 0;
      w = 0;
    } in
    let freed : History = record h { hst_p = 0; hst_lnt = 0; hst_exclude = exclude } in
    if not (lnt == 0) && ltb lnt 64
    then (scpe_arg, h)
    else if lnt == 0
    then (scpe_ok, freed)
    else if allocated
    then (scpe_ok, record freed { hst = λ _. zeros; hst_lnt = lnt })
    else (scpe_mem, freed)

-- The entries that are printed, from the index after `hst_p_loc`, an uint16, on.
unfoldable pub show_loop : (left hst_p_loc : ℕ) → History → List InstHistory
show_loop zero at h = []
show_loop (suc left) at h =
    let rest = show_loop left (u16 (at + 1)) h in
    let i = h.hst (u16 (at + 1) % h.hst_lnt) in if i.typ == 0 then rest else i ∷ rest

unfoldable pub cpu_show_hist : (argument : Option (Option ℕ)) → History → Status × List InstHistory
unfolding show_loop
cpu_show_hist argument h = if h.hst_lnt == 0 then (scpe_nofnc, []) else elim argument [
  | none ↦ (scpe_ok, show_loop h.hst_lnt (u16 h.hst_p) h)
  | some number ↦ elim number [
    | none ↦ (scpe_arg, [])
    | some lnt ↦ if lnt == 0 then (scpe_arg, []) else (scpe_ok, show_loop lnt (u16 h.hst_p) h)
  ]
]
