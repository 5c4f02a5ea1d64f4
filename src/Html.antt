-- ===== src/Html.antt =====
-- The HTML writer, html.c. The depth is an unsigned int, which wraps; `none` stands for the failed
-- assertion of `html_node_leave`. `html_write` gives the text that it hands to fwrite(3).
pub mod Nodes
use robsd.Base.{
  ℕ, zero, suc, ◌+◌, ◌%◌, ◌^◌, ◌-◌, List, [], ◌∷◌, ◌++◌, Option, none, some, Bytes, codes,
}

pub record Html : Type 0 where
  pub bf : Bytes
  pub depth : ℕ

pub record HtmlAttribute : Type 0 where
  pub key : Bytes
  pub val : Bytes

unfoldable pub html_alloc : Html
html_alloc = record { bf = []; depth = 0 }

-- The loop of `html_indent`.
unfoldable pub indent : ℕ → Bytes
indent zero = []
indent (suc n) = codes "  " ++ indent n

unfoldable pub html_indent : Html → Html
unfolding indent
html_indent html = record html { bf = html.bf ++ indent html.depth }

abbrev put : Html → Bytes → Html
put html str = record html { bf = html.bf ++ str }

abbrev pub enter : Html → Html
enter html = record html { depth = (html.depth + 1) % 2 ^ 32 }

abbrev pub leave : Html → Html
leave html = record html { depth = (html.depth + (2 ^ 32 - 1)) % 2 ^ 32 }

abbrev line : Bytes → Bytes
line str = str ++ b'\n' ∷ []

abbrev pub head_begin : Bytes
head_begin =
    line (codes "<!doctype html>")
    ++ line (codes "<html lang=\"en\">")
    ++ line (codes "<head>")
    ++ line (codes "  <meta charset=\"utf-8\">")
    ++ line (codes "  <style>")
    ++ line (codes "    table { border-spacing: 0; }")
    ++ line (codes "    thead { background: #fff; position: sticky; top: 0; }")
    ++ line (codes "    td, th { border: #fff 1px solid; }")
    ++ line (codes "    th { font-weight: normal; text-align: left; }")
    ++ line (codes "    td.PASS { background: #80ff80; }")
    ++ line (codes "    td.FAIL { background: #ff8080; }")
    ++ line (codes "    td.XFAIL { background: #80ffc0; }")
    ++ line (codes "    td.XPASS { background: #ff80c0; }")
    ++ line (codes "    td.SKIP { background: #8080ff; }")
    ++ line (codes "    td.NOTERM { background: #ffff80; }")
    ++ line (codes "    a.status { color: #000; }")
    ++ line (codes "  </style>")

unfoldable pub html_head_enter : Html → Html
unfolding html_indent
html_head_enter html = put (enter (html_indent html)) head_begin

unfoldable pub html_head_leave : Html → Html
unfolding html_indent
html_head_leave html =
    put (html_indent (leave html)) (line (codes "</head>") ++ line (codes "<body>"))

-- The loop over the attributes.
unfoldable pub attributes : List HtmlAttribute → Bytes
attributes [] = []
attributes (attr ∷ attrs) =
    codes " " ++ attr.key ++ codes "=\"" ++ attr.val ++ codes "\"" ++ attributes attrs

unfoldable pub html_node_enter : Html → Bytes → List HtmlAttribute → Html
unfolding html_indent attributes
html_node_enter html type attrs =
    put (put (put (enter (html_indent html)) (codes "<" ++ type)) (attributes attrs))
      (line (codes ">"))

unfoldable pub html_node_leave : Html → Bytes → Option Html
unfolding html_indent
html_node_leave html type = elim html.depth [
  | zero ↦ none
  | suc n ↦ some (put (html_indent (leave html)) (codes "</" ++ type ++ line (codes ">")))
]

unfoldable pub html_text : Html → Bytes → Html
unfolding html_indent
html_text html str = put (html_indent html) (line str)

unfoldable pub html_write : Html → Bytes
html_write html = html.bf ++ line (codes "</body>") ++ line (codes "</html>")
