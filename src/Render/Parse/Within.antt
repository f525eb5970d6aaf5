-- ===== src/Render/Parse/Within.antt =====
-- The tags consume a token at least, when their bodies end.
use sobs.Prelude.{
  ℕ, zero, suc, ◌≤◌, ◌<◌, ◌||◌, Option, none, some, List, [], ◌∷◌, arith, length, drop,
}
use sobs.Text.{Text, lit, text_eq, has_prefix, index}
use sobs.Render.Words.{argument, first_word, top_level_assign}
use sobs.Render.Parse.{
  Node, Nodes, with_node, set_block_node, block_node, call_node, Parser, Found, Outcome, advance,
  add_block, add_macro, parse_params,
}
use sobs.Render.Parse.Tags.{
  parse_extends, parse_include, parse_from, parse_set, parse_with, parse_block, parse_macro,
  parse_call, parse_for, current, enclosed, for_else, for_head, macro_head, with_head, call_head,
}
use sobs.Render.Parse.Run.{if_loop, parse_if, parse_tag}
use sobs.Render.Parse.Holds.{
  Holds, Within, Ends, Next, if_stops, Holds-bind, Holds-if, Holds-option, current-Holds,
  length-drop_le, elif-shorter,
}

module _ (body : List Text → Parser → Outcome (Nodes × Parser)) (n : ℕ)
    (h : (stops : List Text) (p : Parser)
      → length p.toks < n
      → Holds (Ends stops (length p.toks)) (body stops p)) where
  enclosed-Within :
      (g : Nodes → Option Node) (f : Nodes → Found → Found) (stop : Text) (m : ℕ) (p : Parser)
      → length (drop 1 p.toks) ≤ m
      → m < n
      → Holds (Within m) (enclosed body stop g f p)
  unfolding enclosed advance Ends Within Holds
  enclosed-Within g f stop m p e l =
      Holds-bind (Ends (stop ∷ []) (length (drop 1 p.toks))) (Within m)
        (body (stop ∷ []) (advance p)) _ (h (stop ∷ []) (advance p) (omega (arith, e, l)))
        (λ r hr. length-drop_le r.1.toks m (omega (arith, e, hr.0)))

  parse_set-Within :
      (text : Text) (m : ℕ) (p : Parser)
      → length (drop 1 p.toks) ≤ m
      → m < n
      → Holds (Within m) (parse_set body text p)
  unfolding parse_set Holds Within advance
  parse_set-Within text m p e l =
      Holds-option (Within m) (top_level_assign (argument text (lit "set"))) _ _
        (enclosed-Within (λ ns. some (set_block_node (argument text (lit "set")) ns)) (λ ns d. d)
          (lit "endset") m p e l)
        (λ eq. e)

  parse_with-Within :
      (text : Text) (m : ℕ) (p : Parser)
      → length (drop 1 p.toks) ≤ m
      → m < n
      → Holds (Within m) (parse_with body text p)
  unfolding parse_with
  parse_with-Within text m p e l =
      enclosed-Within (λ ns. some (with_node (with_head text) ns)) (λ ns d. d) (lit "endwith") m p e
        l

  parse_block-Within :
      (text : Text) (m : ℕ) (p : Parser)
      → length (drop 1 p.toks) ≤ m
      → m < n
      → Holds (Within m) (parse_block body text p)
  unfolding parse_block
  parse_block-Within text m p e l =
      enclosed-Within (λ ns. some (block_node (argument text (lit "block")) ns))
        (add_block (argument text (lit "block"))) (lit "endblock") m p e l

  parse_call-Within :
      (text : Text) (m : ℕ) (p : Parser)
      → length (drop 1 p.toks) ≤ m
      → m < n
      → Holds (Within m) (parse_call body text p)
  unfolding parse_call
  parse_call-Within text m p e l =
      enclosed-Within (λ ns. some (call_node (call_head text).0 (call_head text).1 ns)) (λ ns d. d)
        (lit "endcall") m p e l

  parse_macro-Within :
      (text : Text) (m : ℕ) (p : Parser)
      → length (drop 1 p.toks) ≤ m
      → m < n
      → Holds (Within m) (parse_macro body text p)
  unfolding parse_macro Holds
  parse_macro-Within text m p e l = Holds-option (Within m) (macro_head text) _ _ tt (λ r.
      enclosed-Within (λ ns. none)
        (λ ns. add_macro (record { name = r.0; params = parse_params r.1; body = ns }))
        (lit "endmacro") m p e l)

  for_else-Within :
      (vars : List Text) (iter : Text) (ns : Nodes) (m : ℕ) (q : Parser) (stop : Text)
      → length q.toks ≤ m
      → m < n
      → Holds (Within m) (for_else body vars iter ns q stop)
  unfolding for_else Holds Within advance Ends
  for_else-Within vars iter ns m q stop e l =
      Holds-if (Within m) (text_eq (first_word stop) (lit "else")) _ _
        (λ t.
          Holds-bind (Ends (lit "endfor" ∷ []) (length (drop 1 q.toks))) (Within m)
            (body (lit "endfor" ∷ []) (advance q)) _
            (h (lit "endfor" ∷ []) (advance q) (omega (arith, length-drop_le q.toks m e, l)))
            (λ r hr. length-drop_le r.1.toks m (omega (arith, length-drop_le q.toks m e, hr.0))))
        (λ t. length-drop_le q.toks m e)

  parse_for-Within :
      (text : Text) (m : ℕ) (p : Parser)
      → length (drop 1 p.toks) ≤ m
      → m < n
      → Holds (Within m) (parse_for body text p)
  unfolding parse_for Holds advance Ends
  parse_for-Within text m p e l = Holds-option (Within m) (for_head text) _ _ tt (λ r.
      Holds-bind (Ends (lit "else" ∷ lit "endfor" ∷ []) (length (drop 1 p.toks))) (Within m) _ _
        (h (lit "else" ∷ lit "endfor" ∷ []) (advance p) (omega (arith, e, l)))
        (λ r' hr.
          Holds-bind (Next r'.1) (Within m) _ _ (current-Holds r'.1)
            (λ stop hn. for_else-Within _ _ _ m r'.1 stop (omega (arith, hr.0, e)) l)))

  if_loop-Within :
      (f : ℕ) (cond : Text) (p : Parser) (m : ℕ)
      → length p.toks < f
      → length p.toks ≤ m
      → m < n
      → Holds (Within m) (if_loop body f cond p)
  unfolding if_loop Holds Within advance Ends
  if_loop-Within zero cond p m hf e l = absurd (omega (arith, hf))
  if_loop-Within (suc f) cond p m hf e l =
      Holds-bind (Ends if_stops (length p.toks)) (Within m) (body if_stops p) _
        (h if_stops p (omega (arith, e, l)))
        (λ r hr. Holds-bind (Next r.1) (Within m) (current r.1) _ (current-Holds r.1) (λ stop hn.
          Holds-if (Within m) (text_eq (first_word stop) (lit "else")) _ _
            (λ t.
              Holds-bind (Ends (lit "endif" ∷ []) (length (drop 1 r.1.toks))) (Within m)
                (body (lit "endif" ∷ []) (advance r.1)) _
                (h (lit "endif" ∷ []) (advance r.1)
                  (omega (arith, e, l, hr.0, length-drop_le r.1.toks m (omega (arith, e, hr.0)))))
                (λ r' hr'.
                  length-drop_le r'.1.toks m
                    (omega (arith, hr'.0, length-drop_le r.1.toks m (omega (arith, e, hr.0))))))
            (λ t.
              Holds-if (Within m) (text_eq (first_word stop) (lit "endif")) _ _
                (λ t'. length-drop_le r.1.toks m (omega (arith, e, hr.0)))
                (λ t'.
                  Holds-bind (Within m) (Within m) (if_loop body f _ _) _
                    (if_loop-Within f _ _ m
                      (elif-shorter r.1 stop f hn hr.1 t t' (omega (arith, hf, hr.0)))
                      (omega (arith, elif-shorter r.1 stop m hn hr.1 t t' (omega (arith, e, hr.0))))
                      l)
                    (λ r' hr'. hr')))))

  parse_if-Within :
      (text : Text) (m : ℕ) (p : Parser)
      → length (drop 1 p.toks) ≤ m
      → m < n
      → Holds (Within m) (parse_if body text p)
  unfolding parse_if Holds Within advance
  parse_if-Within text m p e l =
      Holds-bind (Within m) (Within m)
        (if_loop body (suc (length p.toks)) (argument text (lit "if")) (advance p)) _
        (if_loop-Within (suc (length p.toks)) (argument text (lit "if")) (advance p) m
          (omega (arith, length-drop_le p.toks (length p.toks) (omega arith))) e l)
        (λ r hr. hr)

  pub parse_tag-Within :
      (text kw : Text) (m : ℕ) (p : Parser)
      → length (drop 1 p.toks) ≤ m
      → m < n
      → Holds (Within m) (parse_tag body text kw p)
  unfolding parse_tag Holds Within advance parse_extends parse_include parse_from
  parse_tag-Within text kw m p e l =
      let w = Within {A = Option Node} m in
      Holds-if w (text_eq kw (lit "extends")) _ _ (λ t. e)
        (λ t.
          Holds-if w (text_eq kw (lit "include")) _ _ (λ t. e)
            (λ t.
              Holds-if w (text_eq kw (lit "set")) _ _ (λ t. parse_set-Within text m p e l)
                (λ t.
                  Holds-if w (text_eq kw (lit "if")) _ _ (λ t. parse_if-Within text m p e l)
                    (λ t.
                      Holds-if w (text_eq kw (lit "for")) _ _ (λ t. parse_for-Within text m p e l)
                        (λ t.
                          Holds-if w (text_eq kw (lit "with")) _ _
                            (λ t. parse_with-Within text m p e l)
                            (λ t.
                              Holds-if w (text_eq kw (lit "block")) _ _
                                (λ t. parse_block-Within text m p e l)
                                (λ t.
                                  Holds-if w (text_eq kw (lit "from")) _ _
                                    (λ t.
                                      Holds-option w
                                        (index (argument text (lit "from")) (lit " import ")) _ _ tt
                                        (λ i. e))
                                    (λ t.
                                      Holds-if w (text_eq kw (lit "import")) _ _ (λ t. e)
                                        (λ t.
                                          Holds-if w (text_eq kw (lit "macro")) _ _
                                            (λ t. parse_macro-Within text m p e l)
                                            (λ t.
                                              Holds-if w
                                                (text_eq kw (lit "call")
                                                  || has_prefix text (lit "call("))
                                                _ _ (λ t. parse_call-Within text m p e l)
                                                (λ t. tt)))))))))))
