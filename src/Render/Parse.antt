-- ===== src/Render/Parse.antt =====
-- go/internal/render/parse.go: the nodes of a template, the parser's state, and what a step comes to.
pub mod Tags
pub mod Run
pub mod Holds
pub mod Within
pub mod Total
pub mod Grammar
pub mod Shapes
pub mod Steps
pub mod Bodies
pub mod EndTags
pub mod Runs
pub mod RunsTags
pub mod RunsArms
pub mod Complete
pub mod Sound
pub mod SoundIf
pub mod Refine
use sobs.Prelude.{none, some, suc, is_nil, take, not, map, [], ◌∷◌, ◌++◌, some, keep_if, List, drop}
use sobs.Text.{split, lit, index, trim_space, Text}
use sobs.Render.Lex.{Token}
use sobs.Render.Words.{top_level_assign, split_top}

-- The AST. An ifBranch is `branch`; its condition is empty for the final else.
mutual
  pub data Node : Type 0 where
    text_node : Text → Node
    output_node : Text → Node
    comment_node : Node
    if_node : Branches → Node
    for_node : List Text → Text → Nodes → Nodes → Node
    with_node : List (Text × Text) → Nodes → Node
    set_node : Text → Text → Node
    set_block_node : Text → Nodes → Node
    block_node : Text → Nodes → Node
    call_node : List Text → Text → Nodes → Node
    include_node : Text → Node

  pub data Nodes : Type 0 where
    no_nodes : Nodes
    node : Node → Nodes → Nodes

  pub data Branches : Type 0 where
    no_branches : Branches
    branch : Text → Nodes → Branches → Branches

pub record MacroParam : Type 0 where
  pub name : Text
  pub def : Text

pub record MacroDef : Type 0 where
  pub name : Text
  pub params : List MacroParam
  pub body : Nodes

pub record ImportSpec : Type 0 where
  pub template : Text
  pub names : List Text

-- What a template declares: its parent, and the blocks, macros and imports found so far. The newest
-- binding of a map stands first.
pub record Found : Type 0 where
  pub extends : Text
  pub blocks : List (Text × Nodes)
  pub macros : List (Text × MacroDef)
  pub imports : List ImportSpec

-- The parser's state; `toks` holds p.toks[p.pos:], so nothing when pos is at the end or behind it.
pub record Parser : Type 0 where
  pub toks : List Token
  pub found : Found

-- The errors of fmt.Errorf, with the text of the tag.
pub data ParseError : Type 0 where
  unsupported_tag : Text → ParseError
  bad_from : Text → ParseError
  bad_for : Text → ParseError

-- What a step of the parser comes to: a result, an error, a panic at an index out of range, or, in this
-- model alone, the end of the fuel.
pub data Outcome {ℓ} (A : Type ℓ) : Type ℓ where
  done : A → Outcome A
  failed : ParseError → Outcome A
  panics : Outcome A
  exhausted : Outcome A

infixl 1 ◌>>=◌
abbrev pub ◌>>=◌ {ℓ κ} : {A : Type ℓ} {B : Type κ} → Outcome A → (A → Outcome B) → Outcome B
done a >>= f = f a
failed e >>= f = failed e
panics >>= f = panics
exhausted >>= f = exhausted

-- p.pos++
unfoldable pub advance : Parser → Parser
advance p = record { toks = drop 1 p.toks; found = p.found }

-- The names that a `from` tag imports, given the text behind ` import `.
import_name : Text → Text
import_name s =
    let n = trim_space s in
    elim (index n (lit " as ")) [ none ↦ n | some i ↦ trim_space (take i n) ]

unfoldable pub import_names : Text → List Text
unfolding import_name keep_if
import_names s = keep_if (λ n. not (is_nil n)) (map import_name (split b',' s))

unfoldable pub add_import : Text → List Text → Found → Found
add_import template names d = record {
  extends = d.extends;
  blocks = d.blocks;
  macros = d.macros;
  imports = d.imports ++ (record { template = template; names = names } ∷ []);
}

unfoldable pub add_extends : Text → Found → Found
add_extends name d = record {
  extends = name;
  blocks = d.blocks;
  macros = d.macros;
  imports = d.imports;
}

unfoldable pub add_block : Text → Nodes → Found → Found
add_block name body d = record {
  extends = d.extends;
  blocks = (name, body) ∷ d.blocks;
  macros = d.macros;
  imports = d.imports;
}

unfoldable pub add_macro : MacroDef → Found → Found
add_macro m d = record {
  extends = d.extends;
  blocks = d.blocks;
  macros = (m.name, m) ∷ d.macros;
  imports = d.imports;
}

param_of : Text → MacroParam
param_of part = elim (top_level_assign part) [
  | some eq ↦ record { name = trim_space (take eq part); def = trim_space (drop (suc eq) part) }
  | none ↦ record { name = part; def = [] }
]

unfoldable pub parse_params : Text → List MacroParam
unfolding param_of keep_if split_top
parse_params s = map param_of (keep_if (λ p. not (is_nil p)) (map trim_space (split_top s b',')))
