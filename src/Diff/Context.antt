-- ===== src/Diff/Context.antt =====
-- internal/diff/context.go: the state of one diff, and the statements that the code is built from.
pub mod Keeps
use Prim.Native.String.{◌++◌ as append}
use migra_go.Prelude.{
  String, Bool, true, false, not, Option, none, some, List, [], ◌∷◌, ◌++◌, Map, get, if◌then◌else◌,
}
use migra_go.Context.{Context, err, polled}
use migra_go.Diff.Operation.{Operation}

pub record DiffContext : Type 0 where
  pub ctx : Context
  pub ops : List Operation
  pub warnings : List String

unfoldable pub new_diff_context : Context → DiffContext
new_diff_context ctx = record { ctx = ctx; ops = []; warnings = [] }

-- A statement: the state after it, and whether control goes on behind it. It does not after a
-- `return`.
abbrev pub Statement : Type 0
Statement = DiffContext → DiffContext × Bool

infixl 5 ◌>>◌
unfoldable pub ◌>>◌ : Statement → Statement → Statement
◌>>◌ a b c = let (c', go_on) = a c in if go_on then b c' else (c', false)

unfoldable pub skip : Statement
skip c = (c, true)

-- if err := c.checkCancelled(); err != nil { return }
unfoldable pub check_cancelled : Statement
check_cancelled c = (record c { ctx = polled c.ctx }, not (err c.ctx))

unfoldable pub add_op : Operation → Statement
add_op op c = (record c { ops = c.ops ++ op ∷ [] }, true)

-- The formatted text.
unfoldable pub warnf : String → Statement
warnf text c = (record c { warnings = c.warnings ++ text ∷ [] }, true)

-- A call of a method: a `return` inside ends the method only.
unfoldable pub call : Statement → Statement
call a c = let (c', go_on) = a c in (c', true)

unfoldable pub for_each {ℓ} : {A : Type ℓ} → List A → (A → Statement) → Statement
unfolding skip
for_each [] body = skip
for_each (x ∷ xs) body = body x >> for_each xs body

unfoldable pub when : Bool → Statement → Statement
unfolding skip
when true a = a
when false a = skip

-- `m[name]` for a name that is a key of `m`.
unfoldable pub with_entry {ℓ} : {V : Type ℓ} → Option V → (V → Statement) → Statement
unfolding skip
with_entry none body = skip
with_entry (some v) body = body v
