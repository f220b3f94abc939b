-- ===== src/Archive/Paths/Posix.antt =====
-- Node's `path.posix.isAbsolute` and `path.posix.normalize`, written over the segments of the path.
use mathlib.Core.List.{reverse}
use koharu_suite.Prelude.{
  Bool, false, not, ◌&&◌, ◌||◌, List, [], ◌∷◌, ◌++◌, ◌==◌, if◌then◌else◌, length,
}
use koharu_suite.Prelude.Texts.{Text, codes, text_eq, ends_with_unit, split, join}

-- `path.posix.isAbsolute`.
abbrev pub starts_with_slash : Text → Bool
starts_with_slash [] = false
starts_with_slash (c ∷ s) = c == b'/'

-- One segment against the segments kept so far, the last one first: `..` takes one off, unless
-- there is none or that one is itself `..`; it is then kept where the path is relative.
unfoldable pub resolve_segment : Bool → List Text → Text → List Text
resolve_segment above [] p =
    if text_eq p [] || text_eq p (codes ".")
    then []
    else if text_eq p (codes "..") && not above
    then []
    else p ∷ []
resolve_segment above (top ∷ kept) p =
    if text_eq p [] || text_eq p (codes ".")
    then top ∷ kept
    else if text_eq p (codes "..")
    then (if text_eq top (codes "..") then p ∷ top ∷ kept else kept)
    else p ∷ top ∷ kept

unfoldable pub resolve_segments : Bool → List Text → List Text → List Text
resolve_segments above kept [] = reverse kept
resolve_segments above kept (p ∷ ps) = resolve_segments above (resolve_segment above kept p) ps

-- `path.posix.normalize`.
unfoldable pub normalize : Text → Text
unfolding resolve_segments resolve_segment
normalize path =
    let absolute = starts_with_slash path in
    let trailing = ends_with_unit path b'/' in
    let body = join b'/' (resolve_segments (not absolute) [] (split b'/' path)) in
    if length path == 0
    then codes "."
    else if length body == 0
    then (if absolute then codes "/" else if trailing then codes "./" else codes ".")
    else (if absolute then codes "/" else []) ++ body ++ (if trailing then codes "/" else [])
