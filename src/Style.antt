-- ===== src/Style.antt =====
-- The style sheet of the page (services/web/src/html_view.cpp), a line of it to a line.
use habr_parser.Base.{[], ◌∷◌, Bytes, utf8, written}

pub style : Bytes
style = written (
    utf8 "\n"
    ∷ utf8 ":root {\n"
    ∷ utf8 "  --bg: #f6f7f9; --card: #ffffff; --text: #1a1d21; --muted: #6b7280;\n"
    ∷ utf8 "  --accent: #2563eb; --line: #e3e6ea; --chip: #eef1f5;\n"
    ∷ utf8 "}\n"
    ∷ utf8 "@media (prefers-color-scheme: dark) {\n"
    ∷ utf8 "  :root {\n"
    ∷ utf8 "    --bg: #16181c; --card: #1e2126; --text: #e8eaed; --muted: #9aa3ad;\n"
    ∷ utf8 "    --accent: #7aa2f7; --line: #2c3138; --chip: #262b32;\n"
    ∷ utf8 "  }\n"
    ∷ utf8 "}\n"
    ∷ utf8 "* { box-sizing: border-box; }\n"
    ∷ utf8 "body {\n"
    ∷ utf8 "  margin: 0; padding: 32px 20px 64px;\n"
    ∷ utf8 "  background: var(--bg); color: var(--text);\n"
    ∷ utf8
        "  font: 15px/1.55 -apple-system, BlinkMacSystemFont, \"Segoe UI\", Roboto, Helvetica, Arial, sans-serif;\n"
    ∷ utf8 "}\n"
    ∷ utf8 ".wrap { max-width: 820px; margin: 0 auto; }\n"
    ∷ utf8 "header { margin-bottom: 28px; }\n"
    ∷ utf8 "h1 { margin: 0 0 6px; font-size: 24px; letter-spacing: -0.01em; }\n"
    ∷ utf8 ".meta { color: var(--muted); font-size: 13px; }\n"
    ∷ utf8
        ".meta code { font-family: ui-monospace, SFMono-Regular, Menlo, monospace; font-size: 12px; }\n"
    ∷ utf8 ".item {\n"
    ∷ utf8 "  background: var(--card); border: 1px solid var(--line); border-radius: 10px;\n"
    ∷ utf8 "  padding: 14px 16px; margin-bottom: 10px; display: flex; gap: 14px;\n"
    ∷ utf8 "}\n"
    ∷ utf8
        ".rank { color: var(--muted); font-variant-numeric: tabular-nums; font-size: 18px; min-width: 26px; }\n"
    ∷ utf8 ".body { min-width: 0; flex: 1; }\n"
    ∷ utf8 ".title { font-size: 16px; font-weight: 600; margin-bottom: 5px; }\n"
    ∷ utf8 ".title a { color: var(--text); text-decoration: none; }\n"
    ∷ utf8 ".title a:hover { color: var(--accent); text-decoration: underline; }\n"
    ∷ utf8 ".byline { color: var(--muted); font-size: 13px; margin-bottom: 8px; }\n"
    ∷ utf8 ".hubs { display: flex; flex-wrap: wrap; gap: 5px; margin-bottom: 8px; }\n"
    ∷ utf8
        ".hub { background: var(--chip); color: var(--muted); border-radius: 5px; padding: 2px 7px; font-size: 12px; }\n"
    ∷ utf8
        ".stats { display: flex; flex-wrap: wrap; gap: 14px; font-size: 13px; color: var(--muted);\n"
    ∷ utf8 "         font-variant-numeric: tabular-nums; }\n"
    ∷ utf8 ".stats b { color: var(--text); font-weight: 600; }\n"
    ∷ utf8 ".empty {\n"
    ∷ utf8 "  background: var(--card); border: 1px dashed var(--line); border-radius: 10px;\n"
    ∷ utf8 "  padding: 32px; text-align: center; color: var(--muted);\n"
    ∷ utf8 "}\n"
    ∷ utf8 ".archive { margin-top: 34px; border-top: 1px solid var(--line); padding-top: 16px; }\n"
    ∷ utf8 ".archive h2 { font-size: 13px; text-transform: uppercase; letter-spacing: 0.06em;\n"
    ∷ utf8 "              color: var(--muted); margin: 0 0 10px; font-weight: 600; }\n"
    ∷ utf8 ".archive ul { margin: 0; padding-left: 18px; color: var(--muted); font-size: 13px; }\n"
    ∷ utf8 "footer { margin-top: 28px; color: var(--muted); font-size: 12px; }\n"
    ∷ utf8 "footer a { color: var(--accent); }\n"
    ∷ [])
