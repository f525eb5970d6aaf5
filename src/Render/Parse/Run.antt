-- ===== src/Render/Parse/Run.antt =====
-- The recursive descent of the parser. Fuel is spent on each node; one more than the tokens are enough.
use sobs.Prelude.{ℕ, zero, suc, ◌||◌, Option, none, some, List, [], ◌∷◌, if◌then◌else◌, length}
use sobs.Text.{Text, lit, text_eq, has_prefix, member}
use sobs.Render.Lex.{Token, lex, tok_text, tok_output, tok_tag, tok_comment}
use sobs.Render.Words.{argument, first_word}
use sobs.Render.Parse.{
  Node, Nodes, Branches, no_branches, branch, if_node, text_node, output_node, comment_node,
  no_nodes, node, Parser, Found, unsupported_tag, Outcome, done, failed, exhausted, ◌>>=◌, advance,
}
use sobs.Render.Parse.Tags.{
  Parsed, parse_extends, parse_include, parse_from, parse_set, parse_with, parse_block, parse_macro,
  parse_call, parse_for, current,
}

module _ (parse_until : List Text → Parser → Outcome (Nodes × Parser)) where
  -- The loop of parseIf over its branches, from the body on. A stop tag is one of the three; the code
  -- would take another one for the next branch under the same condition.
  unfoldable pub if_loop : ℕ → Text → Parser → Outcome (Branches × Parser)
  unfolding current
  if_loop zero cond p = exhausted
  if_loop (suc f) cond p = do
    (body, q) ← parse_until (lit "elif" ∷ lit "else" ∷ lit "endif" ∷ []) p
    stop ← current q
    let kw = first_word stop
    let elif = text_eq kw (lit "elif")
    let next =
        if_loop f (if elif then argument stop (lit "elif") else cond)
          (if elif then advance q else q)
    if text_eq kw (lit "else")
        then (do
          (else_body, r) ← parse_until (lit "endif" ∷ []) (advance q)
          done (branch cond body (branch [] else_body no_branches), advance r))
        else if text_eq kw (lit "endif")
        then done (branch cond body no_branches, advance q)
        else (do (rest, r) ← next; done (branch cond body rest, r))

  unfoldable pub parse_if : Text → Parser → Parsed
  unfolding if_loop
  parse_if text p = do
    (branches, q) ← if_loop (suc (length p.toks)) (argument text (lit "if")) (advance p)
    done (some (if_node branches), q)

  unfoldable pub parse_tag : Text → Text → Parser → Parsed
  unfolding parse_if
  parse_tag text kw p =
      if text_eq kw (lit "extends")
      then parse_extends text p
      else if text_eq kw (lit "include")
      then parse_include text p
      else if text_eq kw (lit "set")
      then parse_set parse_until text p
      else if text_eq kw (lit "if")
      then parse_if text p
      else if text_eq kw (lit "for")
      then parse_for parse_until text p
      else if text_eq kw (lit "with")
      then parse_with parse_until text p
      else if text_eq kw (lit "block")
      then parse_block parse_until text p
      else if text_eq kw (lit "from")
      then parse_from text p
      else if text_eq kw (lit "import")
      then done (none, advance p)
      else if text_eq kw (lit "macro")
      then parse_macro parse_until text p
      else if text_eq kw (lit "call") || has_prefix text (lit "call(")
      then parse_call parse_until text p
      else failed (unsupported_tag text)

abbrev pub and_then : Option Node → Nodes → Nodes
and_then none ns = ns
and_then (some n) ns = node n ns

-- A node in front of those that the loop still finds.
unfoldable pub before : Option Node → Outcome (Nodes × Parser) → Outcome (Nodes × Parser)
before n rest = do (ns, q) ← rest; done (and_then n ns, q)

unfoldable pub parse_until : ℕ → List Text → Parser → Outcome (Nodes × Parser)
unfolding parse_tag before
parse_until zero stops p = exhausted
parse_until (suc f) stops p = elim p.toks [
  | [] ↦ done (no_nodes, p)
  | t ∷ toks ↦ elim t.kind [
    | tok_text ↦ before (some (text_node t.text)) (parse_until f stops (advance p))
    | tok_comment ↦ before (some comment_node) (parse_until f stops (advance p))
    | tok_output ↦ before (some (output_node t.text)) (parse_until f stops (advance p))
    | tok_tag ↦ if member (first_word t.text) stops then done (no_nodes, p) else (do
      (n, q) ← parse_tag (parse_until f) t.text (first_word t.text) p
      before n (parse_until f stops q))
  ]
]

abbrev pub nothing_found : Found
nothing_found = record { extends = []; blocks = []; macros = []; imports = [] }

unfoldable pub parse_tokens : List Token → Outcome (Nodes × Parser)
unfolding parse_until
parse_tokens toks =
    parse_until (suc (length toks)) [] (record { toks = toks; found = nothing_found })

unfoldable pub parse : Text → Outcome (Nodes × Found)
unfolding parse_tokens
parse src = do (nodes, p) ← parse_tokens (lex src); done (nodes, p.found)
