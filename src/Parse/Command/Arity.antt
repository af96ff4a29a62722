-- ===== src/Parse/Command/Arity.antt =====
-- What `cli_parse` promises of a line that it accepts, that it returns, and how far it fills `argv`.
use stm32f746g_disco.Prelude.{
  ℕ, zero, suc, ◌+◌, ◌-◌, ◌≤◌, ◌<◌, ◌≡◌, refl, sym, ap, ◌∙◌, subst, ◌⊎◌, absurd_bool, inl, inr,
  Bool, true, false, List, [], ◌∷◌, ◌++◌, append_assoc, arith, leb, tests, Bool-cases, length,
  length-append, Bytes,
}
use stm32f746g_disco.Parse.Lex.{Reading, nothing, open_quote, reading, read_token, skip_spaces}
use stm32f746g_disco.Parse.Command.{
  Cmd, Cmds, mandatory, max_argc, max_subcmd_depth, Partial, value, returns, stuck, ◌>>=◌, Walk,
  collect_on, onward, collect_needed, collect_all, handler_base, is_raw, with_tail, take_tail,
  collect,
}
use stm32f746g_disco.Parse.Command.Descent.{Resolves, Tokens, at_end, OnPath, Post, store-OnPath}

-- The whole line is read as these tokens; or, for a RAW command, the last one is what follows the
-- tokens in front of it, less the spaces; or too few arguments were found.
abbrev pub Spells : Bytes → Walk → Type 0
Spells line w =
    Tokens line w.argv []
    ⊎ (((is_raw w.node ≡ true)
          × (ts : List Bytes) × (r : Bytes) × Tokens line ts r
          × (w.argv ≡ ts ++ skip_spaces r ∷ []))
        ⊎ (length w.argv - handler_base w < mandatory w.node))

-- The arguments are behind the path, and one slot of `argv` is left for the NULL.
pub record Collected (roots : Cmds) (line : Bytes) (cap : ℕ) (node : Cmd) (w : Walk) : Type 0 where
  pub path : List Bytes
  pub args : List Bytes
  pub resolves : Resolves roots path w.node
  pub splits : w.argv ≡ path ++ args
  pub level : w.cmd_level ≡ length path
  pub depth : w.cmd_level ≤ max_subcmd_depth + 1
  pub fits : length w.argv < cap
  pub same : w.node ≡ node
  pub reads : Spells line w

all_spaces : (r : Bytes) → skip_spaces r ≡ [] → read_token r ≡ nothing
unfolding read_token
all_spaces r e = rw e refl

module _ (roots : Cmds) (line : Bytes) where
  collect_on-OnPath :
      (w : Walk) (t : Reading)
      → read_token w.rest ≡ t
      → OnPath roots line w
      → Post
          (λ x. OnPath roots line x.1 × (x.1.node ≡ w.node) × (x.0 ≡ false → x.1.rest ≡ []))
          (collect_on w t)
  collect_on-OnPath w nothing q p = (
    record {
      path = p.path;
      args = p.args;
      resolves = p.resolves;
      splits = p.splits;
      level = p.level;
      depth = p.depth;
      fits = p.fits;
      reads = at_end p.reads q;
    },
    refl,
    (λ _. refl),
  )
  collect_on-OnPath w open_quote q p = λ e. cc
  collect_on-OnPath w (reading tok r) q p = elim (Bool-cases (leb max_argc (length w.argv))) [
    | inl full ↦ rw full (λ e. cc)
    | inr room ↦
        rw room (store-OnPath roots line w tok r room q p, refl, (λ e. absurd_bool (sym e)))
  ]

  abbrev Kept : Cmd → Walk → Type 0
  Kept node v = OnPath roots line v × (v.node ≡ node)

  -- a round that ends the loop has come to the end of the line
  abbrev Round : Cmd → Bool × Walk → Type 0
  Round node (b, v) = Kept node v × (b ≡ false → v.rest ≡ [])

  abbrev Ended : Cmd → Walk → Type 0
  Ended node v = Kept node v × (v.rest ≡ [])

  onward-Kept :
      (node : Cmd) (k : Walk → Partial Walk) (m : Partial (Bool × Walk))
      → ((v : Walk) → Kept node v → Post (Kept node) (k v))
      → Post (Round node) m
      → Post (Kept node) (onward k m)
  onward-Kept node k (value (true, v)) later h = later v h.0
  onward-Kept node k (value (false, v)) later h = h.0
  onward-Kept node k (returns p) later h = h
  onward-Kept node k stuck later h = tt

  onward-Ended :
      (node : Cmd) (k : Walk → Partial Walk) (m : Partial (Bool × Walk))
      → ((v : Walk) → Kept node v → Post (Ended node) (k v))
      → Post (Round node) m
      → Post (Ended node) (onward k m)
  onward-Ended node k (value (true, v)) later h = later v h.0
  onward-Ended node k (value (false, v)) later h = (h.0, h.1 refl)
  onward-Ended node k (returns p) later h = h
  onward-Ended node k stuck later h = tt

  as_round :
      (node : Cmd) (w : Walk) (m : Partial (Bool × Walk))
      → w.node ≡ node
      → Post (λ x. OnPath roots line x.1 × (x.1.node ≡ w.node) × (x.0 ≡ false → x.1.rest ≡ [])) m
      → Post (Round node) m
  as_round node w (value (b, v)) e h = ((h.0, h.1 ∙ e), h.2)
  as_round node w (returns p) e h = h
  as_round node w stuck e h = tt

  collect_on-Round :
      (node : Cmd) (w : Walk) → Kept node w → Post (Round node) (collect_on w (read_token w.rest))
  collect_on-Round node w h =
      as_round node w (collect_on w (read_token w.rest)) h.1
        (collect_on-OnPath w (read_token w.rest) refl h.0)

  collect_needed-Kept :
      (node : Cmd) (n : ℕ) (w : Walk) → Kept node w → Post (Kept node) (collect_needed n w)
  unfolding collect_needed
  collect_needed-Kept node zero w h = h
  collect_needed-Kept node (suc n) w h =
      onward-Kept node (collect_needed n) (collect_on w (read_token w.rest))
        (collect_needed-Kept node n) (collect_on-Round node w h)

  collect_all-Ended :
      (node : Cmd) (f : ℕ) (w : Walk) → Kept node w → Post (Ended node) (collect_all f w)
  unfolding collect_all
  collect_all-Ended node zero w h = tt
  collect_all-Ended node (suc f) w h =
      onward-Ended node (collect_all f) (collect_on w (read_token w.rest))
        (collect_all-Ended node f) (collect_on-Round node w h)

  module _ (cap : ℕ) (big : max_argc + 2 ≤ cap) where
    collected :
        (node : Cmd) (w : Walk) → Kept node w → Spells line w → Collected roots line cap node w
    collected node w (p, e) z = record {
      path = p.path;
      args = p.args;
      resolves = p.resolves;
      splits = p.splits;
      level = p.level;
      depth = p.depth;
      fits = omega (arith, p.fits);
      same = e;
      reads = z;
    }

    with_tail-Collected :
        (node : Cmd) (w : Walk) (rest : Bytes)
        → Kept node w
        → is_raw w.node ≡ true
        → skip_spaces w.rest ≡ rest
        → Post (Collected roots line cap node) (with_tail cap w rest)
    with_tail-Collected node w [] (p, e) raw z = record {
      path = p.path;
      args = p.args;
      resolves = p.resolves;
      splits = p.splits;
      level = p.level;
      depth = p.depth;
      fits = omega (arith, p.fits);
      same = e;
      reads = inl (at_end p.reads (all_spaces w.rest z));
    }
    with_tail-Collected node w (c ∷ cs) (p, e) raw z =
        elim (Bool-cases (leb (cap - 1) (length w.argv))) [
          | inl full ↦ rw full (λ e. cc)
          | inr room ↦ rw room (record {
            path = p.path;
            args = p.args ++ (c ∷ cs) ∷ [];
            resolves = p.resolves;
            splits =
                ap (λ x. x ++ (c ∷ cs) ∷ []) p.splits ∙ append_assoc p.path p.args ((c ∷ cs) ∷ []);
            level = p.level;
            depth = p.depth;
            fits = omega (tests, length-append w.argv ((c ∷ cs) ∷ []));
            same = e;
            reads = inr (inl (raw, w.argv, w.rest, p.reads, ap (λ x. w.argv ++ x ∷ []) (sym z)));
          })
        ]

    take_tail-Collected :
        (node : Cmd) (w : Walk)
        → is_raw w.node ≡ true
        → Kept node w
        → Post (Collected roots line cap node) (take_tail cap w)
    unfolding take_tail
    take_tail-Collected node w raw h =
        elim (Bool-cases (leb (mandatory w.node) (length w.argv - handler_base w))) [
          | inl enough ↦ rw enough (with_tail-Collected node w (skip_spaces w.rest) h raw refl)
          | inr few ↦ rw few (collected node w h (inr (inr (omega tests))))
        ]

    bind-Post :
        (node : Cmd) (m : Partial Walk) (k : Walk → Partial Walk)
        → Post (Kept node) m
        → ((w : Walk) → Kept node w → Post (Collected roots line cap node) (k w))
        → Post (Collected roots line cap node) (m >>= k)
    bind-Post node (value w) k h later = later w h
    bind-Post node (returns p) k h later = h
    bind-Post node stuck k h later = tt

    all-Collected :
        (node : Cmd) (m : Partial Walk)
        → Post (Ended node) m
        → Post (Collected roots line cap node) m
    all-Collected node (value w) h =
        collected node w h.0 (inl (subst (Tokens line w.argv) h.1 h.0.0.reads))
    all-Collected node (returns p) h = h
    all-Collected node stuck h = tt

    pub collect-Collected :
        (f : ℕ) (w : Walk)
        → OnPath roots line w
        → Post (Collected roots line cap w.node) (collect f cap w)
    unfolding collect
    collect-Collected f w p = elim (Bool-cases (is_raw w.node)) [
      | inl raw ↦ rw raw (
          bind-Post w.node (collect_needed (mandatory w.node - 1) w) (take_tail cap)
            (collect_needed-Kept w.node (mandatory w.node - 1) w (p, refl))
            (λ v k. take_tail-Collected w.node v (ap is_raw k.1 ∙ raw) k))
      | inr plain ↦
          rw plain (all-Collected w.node (collect_all f w) (collect_all-Ended w.node f w (p, refl)))
    ]
