-- ===== src/Sentinel/Config/Generate/Settings.antt =====
-- The annotations change no setting.
use gno_watchtower.Base.{
  String, List, [], ◌∷◌, ◌++◌, has_prefix, cut_prefix, trim_space, append_text, if◌then◌else◌, ◌≡◌,
  refl, ◌∙◌, inl, inr, Bool-cases,
}
use gno_watchtower.Sentinel.Config.Generate.{
  Alternative, next_section, applies, lines_after, inject_lines,
}

-- The lines that are no comments.
unfoldable pub settings : List String → List String
settings [] = []
settings (line ∷ lines) =
    let rest = settings lines in if has_prefix line "#" then rest else line ∷ rest

settings-lines_after :
    (current trimmed : String) (alts : List Alternative) (rest : List String)
    → settings (lines_after current trimmed alts ++ rest) ≡ settings rest
unfolding settings lines_after has_prefix cut_prefix append_text
settings-lines_after current trimmed [] rest = refl
settings-lines_after current trimmed (alt ∷ alts) rest =
    elim (Bool-cases (applies current trimmed alt)) [
      | inl at ↦ rw at (settings-lines_after current trimmed alts rest)
      | inr past ↦ rw past (settings-lines_after current trimmed alts rest)
    ]

-- Whatever the alternatives are, the lines of the annotated file that are no comments are those of the file
-- that was annotated, in the same order.
pub settings-inject_lines :
    (alts : List Alternative) (current : String) (lines : List String)
    → settings (inject_lines alts current lines) ≡ settings lines
unfolding settings inject_lines
settings-inject_lines alts current [] = refl
settings-inject_lines alts current (line ∷ lines) =
    let section = next_section current (trim_space line) in
    let same =
      settings-lines_after section (trim_space line) alts (inject_lines alts section lines)
      ∙ settings-inject_lines alts section lines in
    rw same refl
