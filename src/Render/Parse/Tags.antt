-- ===== src/Render/Parse/Tags.antt =====
-- The tags of a template, over the function that parses their bodies.
use sobs.Prelude.{suc, ◌+◌, ◌-◌, Option, none, some, List, [], ◌∷◌, leb, if◌then◌else◌, take, drop}
use sobs.Text.{Text, lit, text_eq, has_prefix, trim_space, index}
use sobs.Render.Words.{
  argument, first_word, unquote, split_vars, top_level_assign, index_byte, last_index_byte,
}
use sobs.Render.Parse.{
  no_nodes, Node, Nodes, for_node, with_node, set_node, set_block_node, block_node, call_node,
  include_node, Parser, Found, bad_from, bad_for, Outcome, done, failed, panics, ◌>>=◌, advance,
  import_names, add_import, add_extends, add_block, add_macro, parse_params,
}

-- A tag that has no body may leave a node.
abbrev pub Parsed : Type 0
Parsed = Outcome (Option Node × Parser)

abbrev pub with_found : (Found → Found) → Parser → Parser
with_found f p = record { toks = p.toks; found = f p.found }

unfoldable pub parse_extends : Text → Parser → Parsed
unfolding add_extends
parse_extends text p =
    done (none, advance (with_found (add_extends (unquote (argument text (lit "extends")))) p))

unfoldable pub parse_include : Text → Parser → Parsed
parse_include text p =
    done (some (include_node (unquote (argument text (lit "include")))), advance p)

unfoldable pub parse_from : Text → Parser → Parsed
unfolding add_import import_names
parse_from text p =
    let rest = argument text (lit "from") in
    elim (index rest (lit " import ")) [
      | none ↦ failed (bad_from text)
      | some i ↦ done (
        none,
        with_found
            (add_import (unquote (trim_space (take i rest))) (import_names (drop (i + 8) rest)))
            (advance p),
      )
    ]

-- The two parts of `for vars in iter`.
unfoldable pub for_head : Text → Option (List Text × Text)
for_head text =
    let inner = argument text (lit "for") in
    elim (index inner (lit " in ")) [
      | none ↦ none
      | some i ↦ some (split_vars (take i inner), trim_space (drop (i + 4) inner))
    ]

-- The assignment of a `with` tag: at the first `=`, if there is one.
unfoldable pub with_head : Text → List (Text × Text)
with_head text =
    let inner = argument text (lit "with") in
    elim (index inner (lit "=")) [
      | none ↦ []
      | some eq ↦ (trim_space (take eq inner), trim_space (drop (suc eq) inner)) ∷ []
    ]

-- The name and the parameters of a macro; slicing at a bracket that is missing panics.
unfoldable pub macro_head : Text → Option (Text × Text)
macro_head text =
    let inner = argument text (lit "macro") in
    elim (index_byte b'(' inner) [
      | none ↦ none
      | some lp ↦ elim (last_index_byte b')' inner) [
        | none ↦ none
        | some rp ↦
            if leb (suc lp) rp
            then some (trim_space (take lp inner), take (rp - suc lp) (drop (suc lp) inner))
            else none
      ]
    ]

-- The caller's parameters and the macro expression of a `call` tag.
unfoldable pub call_head : Text → List Text × Text
call_head text =
    let inner = argument text (lit "call") in
    elim (if has_prefix inner (lit "(") then index_byte b')' inner else none) [
      | none ↦ ([], inner)
      | some end ↦ (split_vars (take (end - 1) (drop 1 inner)), trim_space (drop (suc end) inner))
    ]

-- The text of p.toks[p.pos], which is out of range behind the last token.
unfoldable pub current : Parser → Outcome Text
current p = elim p.toks [ [] ↦ panics | t ∷ toks ↦ done t.text ]

-- The first argument of this section parses nodes up to a tag with one of the given keywords, which
-- stays in the state.
module _ (parse_until : List Text → Parser → Outcome (Nodes × Parser)) where
  -- A body with one end tag: the body tells the node, and what is found besides.
  unfoldable pub enclosed : Text → (Nodes → Option Node) → (Nodes → Found → Found) → Parser → Parsed
  enclosed stop finish find p = do
    (body, q) ← parse_until (stop ∷ []) (advance p)
    done (finish body, with_found (find body) (advance q))

  unfoldable pub parse_set : Text → Parser → Parsed
  unfolding enclosed
  parse_set text p =
      let rest = argument text (lit "set") in
      elim (top_level_assign rest) [
        | some eq ↦ done (
          some (set_node (trim_space (take eq rest)) (trim_space (drop (suc eq) rest))),
          advance p,
        )
        | none ↦ enclosed (lit "endset") (λ body. some (set_block_node rest body)) (λ body d. d) p
      ]

  unfoldable pub parse_with : Text → Parser → Parsed
  unfolding enclosed with_head
  parse_with text p =
      enclosed (lit "endwith") (λ body. some (with_node (with_head text) body)) (λ body d. d) p

  unfoldable pub parse_block : Text → Parser → Parsed
  unfolding enclosed add_block
  parse_block text p =
      let name = argument text (lit "block") in
      enclosed (lit "endblock") (λ body. some (block_node name body)) (add_block name) p

  unfoldable pub parse_macro : Text → Parser → Parsed
  unfolding enclosed macro_head add_macro
  parse_macro text p = elim (macro_head text) [
    | none ↦ panics
    | some (name, params) ↦
        enclosed (lit "endmacro") (λ body. none)
          (λ body. add_macro (record { name = name; params = parse_params params; body = body })) p
  ]

  unfoldable pub parse_call : Text → Parser → Parsed
  unfolding enclosed call_head
  parse_call text p =
      enclosed (lit "endcall") (λ body. some (call_node (call_head text).0 (call_head text).1 body))
        (λ body d. d) p

  unfoldable pub for_else : List Text → Text → Nodes → Parser → Text → Parsed
  for_else vars iter body p stop =
      if text_eq (first_word stop) (lit "else")
      then (do
        (else_body, q) ← parse_until (lit "endfor" ∷ []) (advance p)
        done (some (for_node vars iter body else_body), advance q))
      else done (some (for_node vars iter body no_nodes), advance p)

  unfoldable pub parse_for : Text → Parser → Parsed
  unfolding for_else current
  parse_for text p = elim (for_head text) [
    | none ↦ failed (bad_for text)
    | some (vars, iter) ↦ do
      (body, q) ← parse_until (lit "else" ∷ lit "endfor" ∷ []) (advance p)
      stop ← current q
      for_else vars iter body q stop
  ]
