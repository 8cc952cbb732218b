-- ===== src/Devsummarize/Files.antt =====
-- Which files cmd/devsummarize takes, and whether the model is there: resolveFiles, preflight and
-- normalizeModelTag.
use suzie_filtering_system.Base.{
  Text, codes, Bool, true, false, not, ◌&&◌, ◌||◌, ◌⊎◌, inl, inr, Option, none, some, List, [], ◌∷◌,
  ◌++◌, any, All, All-append, ◌==◌, ◌≡◌, refl, text_eq, trim_right, Bool-cases, arith,
  if◌then◌else◌,
}
use suzie_filtering_system.World.{Env}
use suzie_filtering_system.Devsummarize.{Tool, Visit}

-- filepath.Ext: from the last dot of the last element on
unfoldable pub ext : Text → Text
ext [] = []
ext (c ∷ s) =
    let rest = ext s in
    if c == b'.' && not (any (λ d. d == b'.' || d == b'/') s) then c ∷ s else rest

module _ ⦃env : Env⦄ where
  unfoldable pub is_mail : Text → Bool
  unfolding ext
  is_mail path =
      text_eq (env.lower (ext path)) (codes ".eml") || text_eq (env.lower (ext path)) (codes ".txt")

  abbrev walk_on : Option Text → List Text → List Text × Option Text → List Text × Option Text
  walk_on none files next = next
  walk_on (some e) files next = (files, some e)

  -- filepath.Walk ends at the first error that the function returns.
  unfoldable pub walk_files : List Visit → List Text → List Text × Option Text
  unfolding is_mail
  walk_files [] files = (files, none)
  walk_files (v ∷ vs) files =
      let next =
        walk_files vs (if not v.is_dir && is_mail v.path then files ++ v.path ∷ [] else files) in
      walk_on v.error files next

  abbrev resolve_root : Tool → Text → Text ⊎ Bool → List Text × Option Text
  resolve_root tool root (inl e) = ([], some (codes "cannot access: " ++ e))
  resolve_root tool root (inr true) = walk_files (tool.walk root) []
  resolve_root tool root (inr false) =
      if is_mail root then (root ∷ [], none) else ([], some (codes "file must be .eml or .txt"))

  unfoldable pub resolve_files : Tool → Text → List Text × Option Text
  unfolding walk_files
  resolve_files tool root = resolve_root tool root (tool.stat root)

  walk_files-All :
      (vs : List Visit) (files : List Text)
      → All (λ f. is_mail f ≡ true) files
      → All (λ f. is_mail f ≡ true) (walk_files vs files).0
  unfolding walk_files
  walk_files-All [] files h = h
  walk_files-All (v ∷ vs) files h =
      go v.error (not v.is_dir && is_mail v.path) refl (walk_files-All vs)
    where
      go :
          (e : Option Text) (b : Bool)
          → (not v.is_dir && is_mail v.path) ≡ b
          → ((fs : List Text)
              → All (λ f. is_mail f ≡ true) fs
              → All (λ f. is_mail f ≡ true) (walk_files vs fs).0)
          → All
              (λ f. is_mail f ≡ true)
              (walk_on e files (walk_files vs (if b then files ++ v.path ∷ [] else files))).0
      go (some x) b k later = h
      go none false k later = later files h
      go none true k later = later _ (All-append _ files _ h (ground (arith, k), tt))

  -- Whatever the file system answers, every file that is resolved ends in .eml or .txt, in any case.
  pub resolve_files-All :
      (tool : Tool) (root : Text) → All (λ f. is_mail f ≡ true) (resolve_files tool root).0
  unfolding resolve_files
  resolve_files-All tool root = go (tool.stat root)
    where
      go : (r : Text ⊎ Bool) → All (λ f. is_mail f ≡ true) (resolve_root tool root r).0
      go (inl e) = tt
      go (inr true) = walk_files-All (tool.walk root) [] tt
      go (inr false) = elim (Bool-cases (is_mail root)) [ inl h ↦ rw h (h, tt) | inr h ↦ rw h tt ]

-- what stands behind the last slash
unfoldable pub normalize_model_tag : Text → Text
normalize_model_tag [] = []
normalize_model_tag (c ∷ s) =
    let rest = normalize_model_tag s in
    if any (λ d. d == b'/') s then rest else if c == b'/' then s else c ∷ s

unfoldable pub find_model : Text → List Text → Option Text
unfolding normalize_model_tag
find_model tag [] = some (codes "model not found in Ollama")
find_model tag (m ∷ ms) =
    let rest = find_model tag ms in
    if text_eq (normalize_model_tag m) (normalize_model_tag tag) then none else rest

-- The error, if any.
unfoldable pub preflight : Tool → Text → Text → Option Text
unfolding find_model
preflight tool ollama_url tag =
    elim (tool.http_get (trim_right (λ c. c == b'/') ollama_url ++ codes "/api/tags")) [
      | inl e ↦ some (codes "cannot reach Ollama: " ++ e)
      | inr response ↦
          if not (response.status == 200)
          then some (codes "ollama returned HTTP")
          else elim (tool.decode_tags response.body) [
            | inl e ↦ some (codes "decode /api/tags: " ++ e)
            | inr names ↦ find_model tag names
          ]
    ]

normalize_model_tag-plain : (s : Text) → any (λ d. d == b'/') s ≡ false → normalize_model_tag s ≡ s
unfolding normalize_model_tag
normalize_model_tag-plain [] h = refl
normalize_model_tag-plain (c ∷ s) h = ground (arith)

normalize_model_tag-slashes : (s : Text) → any (λ d. d == b'/') (normalize_model_tag s) ≡ false
unfolding normalize_model_tag
normalize_model_tag-slashes [] = refl
normalize_model_tag-slashes (c ∷ s) = ground (arith, normalize_model_tag-slashes s)
