-- ===== src/Html/Nodes.antt =====
-- Nodes within nodes: what HTML_NODE, HTML_NODE_ATTR and HTML_TEXT of html.h write.
use robsd.Base.{
  sym, ℕ, suc, ◌+◌, ◌%◌, ◌^◌, ◌-◌, ◌<◌, List, [], ◌∷◌, ◌++◌, Option, none, some, Bytes, codes, ◌≡◌,
  ◌∙◌, refl, ap, arith, append_assoc, append-nil,
}
use robsd.Html.{
  Html, HtmlAttribute, attributes, indent, html_indent, html_node_enter, html_node_leave, html_text,
}

-- What the body of a macro makes: nothing, a text and what follows it, or a node with its body
-- and what follows it.
pub data Nodes : Type 0 where
  end : Nodes
  text : Bytes → Nodes → Nodes
  node : Bytes → List HtmlAttribute → Nodes → Nodes → Nodes

and_then : Option Html → (Html → Option Html) → Option Html
and_then none f = none
and_then (some html) f = f html

unfoldable pub emit : Nodes → Html → Option Html
unfolding and_then
emit end html = some html
emit (text str rest) html = emit rest (html_text html str)
emit (node type attrs body rest) html =
    and_then (and_then (emit body (html_node_enter html type attrs)) (λ h. html_node_leave h type))
      (emit rest)

-- The text of the nodes at a depth.
unfoldable pub print : ℕ → Nodes → Bytes
print depth end = []
print depth (text str rest) = indent depth ++ str ++ b'\n' ∷ print depth rest
print depth (node type attrs body rest) =
    indent depth
    ++ codes "<"
    ++ type
    ++ attributes attrs
    ++ codes ">\n"
    ++ print (suc depth) body
    ++ indent depth
    ++ codes "</"
    ++ type
    ++ codes ">\n"
    ++ print depth rest

-- The depth stays below 2 ^ 32.
abbrev pub Fits : ℕ → Nodes → Type 0
Fits depth end = Unit
Fits depth (text str rest) = Fits depth rest
Fits depth (node type attrs body rest) =
    (suc depth < 2 ^ 32) × Fits (suc depth) body × Fits depth rest

-- The state after the text `str` is written.
abbrev wrote : Html → Bytes → Html
wrote html str = record html { bf = html.bf ++ str }

html_eq :
    {b b' : Bytes} {d d' : ℕ}
    → b ≡ b'
    → d ≡ d'
    → ◌≡◌ {A = Html} (record { bf = b; depth = d }) (record { bf = b'; depth = d' })
html_eq e f = rw (e, f) refl

begin_tag : ℕ → Bytes → List HtmlAttribute → Bytes
begin_tag d type attrs = indent d ++ codes "<" ++ type ++ attributes attrs ++ codes ">\n"

end_tag : ℕ → Bytes → Bytes
end_tag d type = indent d ++ codes "</" ++ type ++ codes ">\n"

enter_lem :
    (b : Bytes) (d : ℕ) (type : Bytes) (attrs : List HtmlAttribute)
    → suc d < 2 ^ 32
    → html_node_enter (record { bf = b; depth = d }) type attrs
      ≡ record { bf = b ++ begin_tag d type attrs; depth = suc d }
unfolding html_node_enter html_indent begin_tag
enter_lem b d type attrs h = html_eq (simp append_assoc) (omega arith)

leave_lem :
    (b : Bytes) (d : ℕ) (type : Bytes)
    → suc d < 2 ^ 32
    → html_node_leave (record { bf = b; depth = suc d }) type
      ≡ some (record { bf = b ++ end_tag d type; depth = d })
unfolding html_node_leave html_indent end_tag
leave_lem b d type h =
    let back : (suc d + (2 ^ 32 - 1)) % 2 ^ 32 ≡ d = omega arith in
    rw back (ap some (html_eq (simp append_assoc) refl))

print_node :
    (d : ℕ) (b type : Bytes) (attrs : List HtmlAttribute) (body rest : Nodes)
    → b ++ begin_tag d type attrs ++ print (suc d) body ++ end_tag d type ++ print d rest
      ≡ b ++ print d (node type attrs body rest)
unfolding print begin_tag end_tag
print_node d b type attrs body rest = simp append_assoc

-- The nodes are written at the depth as a tree of indented tags, each with its end, and the depth is
-- the same before and after; no assertion fails. The depth has to stay below 2 ^ 32.
pub emit-print :
    (nodes : Nodes) (b : Bytes) (d : ℕ)
    → Fits d nodes
    → emit nodes (record { bf = b; depth = d })
      ≡ some (record { bf = b ++ print d nodes; depth = d })
unfolding emit and_then html_text html_indent print
emit-print end b d h = ap some (html_eq (sym (append-nil b)) refl)
emit-print (text str rest) b d h =
    emit-print rest (b ++ indent d ++ (str ++ b'\n' ∷ [])) d h
    ∙ ap some (html_eq (simp append_assoc) refl)
emit-print (node type attrs body rest) b d (h, hb, hr) =
    let b1 = b ++ begin_tag d type attrs in
    let b2 = b1 ++ print (suc d) body in
    rw (enter_lem b d type attrs h) (
      rw (emit-print body b1 (suc d) hb) (
        rw (leave_lem b2 d type h) (
          emit-print rest (b2 ++ end_tag d type) d hr
          ∙ ap some (html_eq (print_node d b type attrs body rest) refl))))
