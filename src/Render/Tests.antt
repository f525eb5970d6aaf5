-- ===== src/Render/Tests.antt =====
-- Templates, their tokens and their nodes.
use sobs.Prelude.{◌≡◌, refl, true, false, List, [], ◌∷◌, map}
use sobs.Text.{Text, lit, text_eq, has_prefix, has_suffix, trim_space, member}
use sobs.Render.Lex.{lex, apply_trim}
use sobs.Render.Lex.Print.{Piece, words, marked, output, tag, print, token_of, IsPrintable}
use sobs.Render.Lex.RoundTrip.{lex-print}
use sobs.Render.Lex.Stripped.{IsStripped, lex-IsStripped}
use sobs.Render.Words.{first_word, argument}
use sobs.Render.Parse.Tags.{parse_block}
use sobs.Render.Parse.{
  advance, Nodes, no_nodes, node, text_node, output_node, if_node, branch, no_branches, block_node,
  Found, done, panics, failed, unsupported_tag,
}
use sobs.Render.Parse.Run.{parse, parse_tokens, nothing_found}
use sobs.Render.Parse.Holds.{Holds}
use sobs.Render.Parse.Total.{parse_tokens_total}
use sobs.Render.Parse.Grammar.{Reads}
use sobs.Render.Parse.Refine.{parse_tokens_iff}

abbrev pieces : List Piece
pieces =
    words (lit "a \n")
    ∷ marked tag true (lit "if x") false
    ∷ words (lit " b ")
    ∷ marked output false (lit "y") false
    ∷ marked tag false (lit "endif") true
    ∷ words (lit "\n c")
    ∷ []

pieces-print : print pieces ≡ lit "a \n{%- if x %} b {{ y }}{% endif -%}\n c"
unfolding print lit
pieces-print = refl

pieces-IsPrintable : IsPrintable pieces
unfolding IsPrintable lit trim_space
pieces-IsPrintable = (
  refl,
  refl,
  refl,
  (refl, refl, (refl, refl, refl, (refl, refl, (refl, refl, (refl, refl, refl, tt))))),
)

lex-print_example : lex (print pieces) ≡ apply_trim (map token_of pieces)
lex-print_example = lex-print pieces pieces-IsPrintable

lex-IsStripped_example : IsStripped (lex (print pieces))
lex-IsStripped_example = lex-IsStripped (print pieces)

abbrev page : Text
page = lit "a{% if x %}b{{ y }}{% else %}{% block t %}c{% endblock %}{% endif %}"

abbrev page_nodes : Nodes
page_nodes = node (text_node (lit "a")) (
    node
      (if_node (
        branch (lit "x") (node (text_node (lit "b")) (node (output_node (lit "y")) no_nodes)) (
          branch [] (node (block_node (lit "t") (node (text_node (lit "c")) no_nodes)) no_nodes)
            no_branches)))
      no_nodes)

abbrev page_found : Found
page_found = record {
  extends = [];
  blocks = (lit "t", node (text_node (lit "c")) no_nodes) ∷ [];
  macros = [];
  imports = [];
}

page-parse : parse_tokens (lex page) ≡ done (page_nodes, record { toks = []; found = page_found })
unfolding parse_tokens lex lit trim_space text_eq member has_suffix advance first_word parse_block
    argument
page-parse = refl

parse_tokens_iff_example : Reads (lex page) nothing_found page_nodes [] page_found
parse_tokens_iff_example = (parse_tokens_iff (lex page) page_nodes page_found).0 page-parse

parse_tokens_total_example : Holds (λ r. r.1.toks ≡ []) (parse_tokens (lex page))
parse_tokens_total_example = parse_tokens_total (lex page)

-- A condition without its end panics; a block without its end does not.
unclosed_if : parse (lit "{% if x %}a") ≡ panics
unfolding parse lex lit trim_space text_eq member has_suffix advance first_word
unclosed_if = refl

stray_end : parse (lit "{% endif %}") ≡ failed (unsupported_tag (lit "endif"))
unfolding parse lex lit trim_space text_eq member has_suffix has_prefix first_word
stray_end = refl
