-- ===== src/Parse/Command/Descent.antt =====
-- The walk of `cli_parse` down the command tree: where it stands, and what `argv` holds.
use stm32f746g_disco.Prelude.{
  ℕ, zero, suc, ◌+◌, ◌-◌, ◌≤◌, ◌≡◌, refl, sym, ap, ◌∙◌, ◌≢◌, inl, inr, Bool, true, false, Option,
  none, some, List, [], ◌∷◌, ◌++◌, append_assoc, append-nil, arith, leb, tests, Bool-cases, length,
  length-append, Bytes,
}
use stm32f746g_disco.Parse.Lex.{Reading, nothing, open_quote, reading, read_token}
use stm32f746g_disco.Parse.Command.{
  Cmd, Subcommands, leaf, group, Cmds, subcmds, max_argc, max_subcmd_depth, ok, lookup, Partial,
  value, returns, stuck, Walk, store, enter, descend_on, onward, descend, start,
}

-- The tokens name the command, from a root down its subcommand sets.
pub data Resolves (roots : Cmds) : List Bytes → Cmd → Type 0 where
  root : (t : Bytes) {c : Cmd} → lookup roots t ≡ some c → Resolves roots (t ∷ []) c
  below :
      {ts : List Bytes} {c d : Cmd} (cs : Cmds) (t : Bytes)
      → Resolves roots ts c
      → subcmds c ≡ group cs
      → lookup cs t ≡ some d
      → Resolves roots (ts ++ t ∷ []) d

-- The line is read token by token: these are the first ones, and that is the rest.
pub data Tokens (line : Bytes) : List Bytes → Bytes → Type 0 where
  unread : Tokens line [] line
  then_reads :
      {ts : List Bytes} {r s : Bytes} (t : Bytes)
      → Tokens line ts r
      → read_token r ≡ reading t s
      → Tokens line (ts ++ t ∷ []) s
  at_end :
      {ts : List Bytes} {r : Bytes} → Tokens line ts r → read_token r ≡ nothing → Tokens line ts []

-- `argv` has the tokens read so far, the path of the node and then the arguments, and has room.
pub record OnPath (roots : Cmds) (line : Bytes) (w : Walk) : Type 0 where
  pub path : List Bytes
  pub args : List Bytes
  pub resolves : Resolves roots path w.node
  pub splits : w.argv ≡ path ++ args
  pub level : w.cmd_level ≡ length path
  pub depth : w.cmd_level ≤ max_subcmd_depth + 1
  pub fits : length w.argv ≤ max_argc
  pub reads : Tokens line w.argv w.rest

-- A property of what goes on; whatever returns at once is no success.
abbrev pub Post {ℓ} : {A : Type ℓ} → (A → Type 0) → Partial A → Type 0
Post P (value a) = P a
Post P (returns p) = p.status ≢ ok
Post P stuck = Unit {0}

module _ (roots : Cmds) (line : Bytes) where
  pub store-OnPath :
      (w : Walk) (tok r : Bytes)
      → leb max_argc (length w.argv) ≡ false
      → read_token w.rest ≡ reading tok r
      → OnPath roots line w
      → OnPath roots line (store tok r w)
  store-OnPath w tok r h q p = record {
    path = p.path;
    args = p.args ++ tok ∷ [];
    resolves = p.resolves;
    splits = ap (λ x. x ++ tok ∷ []) p.splits ∙ append_assoc p.path p.args (tok ∷ []);
    level = p.level;
    depth = p.depth;
    fits = omega (tests, length-append w.argv (tok ∷ []));
    reads = then_reads tok p.reads q;
  }

  -- The walk stands on a node with nothing but its path read.
  abbrev pub AtNode : Walk → Type 0
  AtNode w = (p : OnPath roots line w) × (p.args ≡ [])

  pub start-AtNode :
      (c : Cmd) (tok r : Bytes)
      → read_token line ≡ reading tok r
      → lookup roots tok ≡ some c
      → AtNode (start c tok r)
  start-AtNode c tok r q e = (
    record {
      path = tok ∷ [];
      args = [];
      resolves = root tok e;
      splits = refl;
      level = refl;
      depth = omega arith;
      fits = omega arith;
      reads = then_reads tok unread q;
    },
    refl,
  )

  -- What one round of the descent keeps: on a node if the loop goes on, on a path in any case.
  abbrev Round : Bool × Walk → Type 0
  Round (true, w) = AtNode w
  Round (false, w) = OnPath roots line w

  enter-Round :
      (cs : Cmds) (w : Walk) (tok r : Bytes) (o : Option Cmd)
      → subcmds w.node ≡ group cs
      → lookup cs tok ≡ o
      → leb max_argc (length w.argv) ≡ false
      → read_token w.rest ≡ reading tok r
      → AtNode w
      → Post Round (enter w tok r o)
  enter-Round cs w tok r none g e h q (p, n) = store-OnPath w tok r h q p
  enter-Round cs w tok r (some sub) g e h q (p, n) =
      elim (Bool-cases (leb max_subcmd_depth (w.cmd_level - 1))) [
        | inl deep ↦ rw deep (λ e. cc)
        | inr shallow ↦ rw shallow (
          record {
            path = p.path ++ tok ∷ [];
            args = [];
            resolves = below cs tok p.resolves g e;
            splits =
                ap (λ x. x ++ tok ∷ []) (p.splits ∙ ap (λ x. p.path ++ x) n ∙ append-nil p.path)
                ∙ sym (append-nil (p.path ++ tok ∷ []));
            level = omega (arith, p.level, length-append p.path (tok ∷ []));
            depth = omega (tests, p.depth);
            fits = omega (tests, length-append w.argv (tok ∷ []));
            reads = then_reads tok p.reads q;
          },
          refl,
        )
      ]

  descend_on-Round :
      (cs : Cmds) (w : Walk) (t : Reading)
      → subcmds w.node ≡ group cs
      → read_token w.rest ≡ t
      → AtNode w
      → Post Round (descend_on cs w t)
  descend_on-Round cs w nothing g q (p, n) = record {
    path = p.path;
    args = p.args;
    resolves = p.resolves;
    splits = p.splits;
    level = p.level;
    depth = p.depth;
    fits = p.fits;
    reads = at_end p.reads q;
  }
  descend_on-Round cs w open_quote g q p = λ e. cc
  descend_on-Round cs w (reading tok r) g q p = elim (Bool-cases (leb max_argc (length w.argv))) [
    | inl full ↦ rw full (λ e. cc)
    | inr room ↦ rw room (enter-Round cs w tok r (lookup cs tok) g refl room q p)
  ]

  onward-OnPath :
      (k : Walk → Partial Walk) (m : Partial (Bool × Walk))
      → ((v : Walk) → AtNode v → Post (OnPath roots line) (k v))
      → Post Round m
      → Post (OnPath roots line) (onward k m)
  onward-OnPath k (value (true, v)) later h = later v h
  onward-OnPath k (value (false, v)) later h = h
  onward-OnPath k (returns p) later h = h
  onward-OnPath k stuck later h = tt

  -- The descent ends on a path.
  pub descend-OnPath : (f : ℕ) (w : Walk) → AtNode w → Post (OnPath roots line) (descend f w)
  unfolding descend
  descend-OnPath zero w p = tt
  descend-OnPath (suc f) w p = go (subcmds w.node) refl (descend-OnPath f)
    where
      go :
          (s : Subcommands)
          → subcmds w.node ≡ s
          → ((v : Walk) → AtNode v → Post (OnPath roots line) (descend f v))
          → Post (OnPath roots line) (descend (suc f) w)
      go leaf e later = rw (e, descend) p.0
      go (group cs) e later =
          rw (e, descend)
            (onward-OnPath (descend f) (descend_on cs w (read_token w.rest)) later
              (descend_on-Round cs w (read_token w.rest) e refl p))
