-- ===== src/Render/Parse/Grammar.antt =====
-- A grammar of templates, as a relation between tokens and nodes: what parse.go is to accept.
use sobs.Prelude.{suc, ◌+◌, ◌≡◌, ◌||◌, Option, none, some, List, [], ◌∷◌, if◌then◌else◌, take, drop}
use sobs.Text.{Text, lit, text_eq, has_prefix, trim_space, index}
use sobs.Render.Lex.{tok_output, tok_comment, tok_text, Token, tok_tag}
use sobs.Render.Words.{argument, first_word, unquote, top_level_assign}
use sobs.Render.Parse.{
  no_branches, branch, if_node, Branches, for_node, output_node, comment_node, text_node, node,
  Node, Nodes, no_nodes, with_node, set_node, set_block_node, block_node, call_node, include_node,
  Found, add_block, add_macro, add_extends, add_import, import_names, parse_params,
}
use sobs.Render.Parse.Tags.{for_head, macro_head, with_head, call_head}
use sobs.Render.Parse.Run.{and_then}

-- What a tag asks for: nothing behind it, a body up to one end tag, a loop over variables, or the
-- branches of a condition. A tag that is none of them is an error.
pub data Shape : Type 0 where
  plain : Option Node → (Found → Found) → Shape
  enclosing : Text → (Nodes → Option Node) → (Nodes → Found → Found) → Shape
  looping : List Text → Text → Shape
  choosing : Text → Shape
  misplaced : Shape

unfoldable pub set_shape : Text → Shape
set_shape rest = elim (top_level_assign rest) [
  | none ↦ enclosing (lit "endset") (λ ns. some (set_block_node rest ns)) (λ ns d. d)
  | some eq ↦
      plain (some (set_node (trim_space (take eq rest)) (trim_space (drop (suc eq) rest)))) (λ d. d)
]

unfoldable pub from_shape : Text → Shape
from_shape rest = elim (index rest (lit " import ")) [
  | none ↦ misplaced
  | some i ↦
      plain none
        (add_import (unquote (trim_space (take i rest))) (import_names (drop (i + 8) rest)))
]

unfoldable pub macro_shape : Text → Shape
macro_shape text = elim (macro_head text) [
  | none ↦ misplaced
  | some (name, params) ↦
      enclosing (lit "endmacro") (λ ns. none)
        (λ ns. add_macro (record { name = name; params = parse_params params; body = ns }))
]

unfoldable pub for_shape : Text → Shape
for_shape text = elim (for_head text) [ none ↦ misplaced | some (vars, iter) ↦ looping vars iter ]

unfoldable pub shape : Text → Text → Shape
unfolding set_shape from_shape macro_shape for_shape
shape kw text =
    if text_eq kw (lit "extends")
    then plain none (add_extends (unquote (argument text (lit "extends"))))
    else if text_eq kw (lit "include")
    then plain (some (include_node (unquote (argument text (lit "include"))))) (λ d. d)
    else if text_eq kw (lit "set")
    then set_shape (argument text (lit "set"))
    else if text_eq kw (lit "if")
    then choosing (argument text (lit "if"))
    else if text_eq kw (lit "for")
    then for_shape text
    else if text_eq kw (lit "with")
    then enclosing (lit "endwith") (λ ns. some (with_node (with_head text) ns)) (λ ns d. d)
    else if text_eq kw (lit "block")
    then enclosing (lit "endblock") (λ ns. some (block_node (argument text (lit "block")) ns))
        (add_block (argument text (lit "block")))
    else if text_eq kw (lit "from")
    then from_shape (argument text (lit "from"))
    else if text_eq kw (lit "import")
    then plain none (λ d. d)
    else if text_eq kw (lit "macro")
    then macro_shape text
    else if text_eq kw (lit "call") || has_prefix text (lit "call(")
    then enclosing (lit "endcall") (λ ns. some (call_node (call_head text).0 (call_head text).1 ns))
        (λ ns d. d)
    else misplaced

-- A tag with the given keyword stands in front of the tokens.
pub data Tag (kw : Text) : List Token → List Token → Type 0 where
  tag_here :
      (t : Token) (toks : List Token)
      → t.kind ≡ tok_tag
      → first_word t.text ≡ kw
      → Tag kw (t ∷ toks) toks

-- The end of a body: its end tag, or the end of the template.
pub data End (kw : Text) : List Token → List Token → Type 0 where
  end_tag : {toks rest : List Token} → Tag kw toks rest → End kw toks rest
  end_of_template : End kw [] []

mutual
  -- `Reads toks d ns rest e`: the tokens up to `rest` are those of the nodes `ns`, whose declarations
  -- lead from `d` to `e`.
  pub data Reads : List Token → Found → Nodes → List Token → Found → Type 0 where
    reads_none : {toks : List Token} {d : Found} → Reads toks d no_nodes toks d
    reads_text :
        {t : Token} {toks rest : List Token} {d e : Found} {ns : Nodes}
        → t.kind ≡ tok_text
        → Reads toks d ns rest e
        → Reads (t ∷ toks) d (node (text_node t.text) ns) rest e
    reads_comment :
        {t : Token} {toks rest : List Token} {d e : Found} {ns : Nodes}
        → t.kind ≡ tok_comment
        → Reads toks d ns rest e
        → Reads (t ∷ toks) d (node comment_node ns) rest e
    reads_output :
        {t : Token} {toks rest : List Token} {d e : Found} {ns : Nodes}
        → t.kind ≡ tok_output
        → Reads toks d ns rest e
        → Reads (t ∷ toks) d (node (output_node t.text) ns) rest e
    reads_plain :
        {t : Token} {toks rest : List Token} {d e : Found} {ns : Nodes} (n : Option Node)
        (find : Found → Found)
        → t.kind ≡ tok_tag
        → shape (first_word t.text) t.text ≡ plain n find
        → Reads toks (find d) ns rest e
        → Reads (t ∷ toks) d (and_then n ns) rest e
    reads_enclosing :
        {t : Token} {toks mid after rest : List Token} {d d1 e : Found} {body ns : Nodes}
        (stop : Text) (finish : Nodes → Option Node) (find : Nodes → Found → Found)
        → t.kind ≡ tok_tag
        → shape (first_word t.text) t.text ≡ enclosing stop finish find
        → Reads toks d body mid d1
        → End stop mid after
        → Reads after (find body d1) ns rest e
        → Reads (t ∷ toks) d (and_then (finish body) ns) rest e
    reads_loop :
        {t : Token} {toks mid after rest : List Token} {d d1 d2 e : Found} {body other ns : Nodes}
        (vars : List Text) (iter : Text)
        → t.kind ≡ tok_tag
        → shape (first_word t.text) t.text ≡ looping vars iter
        → Reads toks d body mid d1
        → LoopEnd mid d1 other after d2
        → Reads after d2 ns rest e
        → Reads (t ∷ toks) d (node (for_node vars iter body other) ns) rest e
    reads_choice :
        {t : Token} {toks after rest : List Token} {d d1 e : Found} {bs : Branches} {ns : Nodes}
        (cond : Text)
        → t.kind ≡ tok_tag
        → shape (first_word t.text) t.text ≡ choosing cond
        → Arms cond toks d bs after d1
        → Reads after d1 ns rest e
        → Reads (t ∷ toks) d (node (if_node bs) ns) rest e

  -- The end of a loop: `endfor`, or `else` with a body of its own.
  pub data LoopEnd : List Token → Found → Nodes → List Token → Found → Type 0 where
    loop_end :
        {toks rest : List Token} {d : Found}
        → Tag (lit "endfor") toks rest
        → LoopEnd toks d no_nodes rest d
    loop_else :
        {toks next mid rest : List Token} {d e : Found} {ns : Nodes}
        → Tag (lit "else") toks next
        → Reads next d ns mid e
        → End (lit "endfor") mid rest
        → LoopEnd toks d ns rest e

  -- The branches of a condition, from the body of the first on.
  pub data Arms : Text → List Token → Found → Branches → List Token → Found → Type 0 where
    arm_end :
        {cond : Text} {toks mid rest : List Token} {d e : Found} {ns : Nodes}
        → Reads toks d ns mid e
        → Tag (lit "endif") mid rest
        → Arms cond toks d (branch cond ns no_branches) rest e
    arm_else :
        {cond : Text} {toks mid next mid2 rest : List Token} {d d1 e : Found} {ns ns2 : Nodes}
        → Reads toks d ns mid d1
        → Tag (lit "else") mid next
        → Reads next d1 ns2 mid2 e
        → End (lit "endif") mid2 rest
        → Arms cond toks d (branch cond ns (branch [] ns2 no_branches)) rest e
    arm_elif :
        {cond : Text} {t : Token} {toks next rest : List Token} {d d1 e : Found} {ns : Nodes}
        {bs : Branches}
        → Reads toks d ns (t ∷ next) d1
        → t.kind ≡ tok_tag
        → first_word t.text ≡ lit "elif"
        → Arms (argument t.text (lit "elif")) next d1 bs rest e
        → Arms cond toks d (branch cond ns bs) rest e
