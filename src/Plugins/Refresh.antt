-- ===== src/Plugins/Refresh.antt =====
-- What a search of the directories does to the recorded hash and trust level of a plugin.
use ksec.Prelude.{
  ℕ, String, ◌≡◌, refl, none, some, List, [], ◌∷◌, ◌++◌, find?, find?-update_where, find?-holds,
  arith, Option-cases, inl, inr,
}
use ksec.Plugins.{PluginInfo, PluginManifest, PluginManager, Directory, get, has_id, is_listed}
use ksec.Plugins.Catalog.{ensure_registry_row, new_row, refreshed}

find?-append :
    (id : String) (xs : List PluginInfo) (y r : PluginInfo)
    → find? (has_id id) xs ≡ none
    → find? (is_listed id) (xs ++ y ∷ []) ≡ some r
    → r ≡ y
unfolding find?
find?-append id [] y r free e = ground (arith, e)
find?-append id (x ∷ xs) y r free e = ground (arith, free, e, find?-append id xs y r)

-- Once a directory was searched, the hash and the trust level that are recorded for its plugin are
-- those of the directory and of its manifest, whatever was recorded when it was installed.
pub ensure_registry_row-get :
    (now : ℕ) (m : PluginManifest) (d : Directory) (s : PluginManager) (info : PluginInfo)
    → get m.id (ensure_registry_row now m d s) ≡ some info
    → (info.manifest_sha256 ≡ d.sha) × (info.trust_level ≡ m.trust_level)
unfolding get ensure_registry_row
ensure_registry_row-get now m d s info e = elim (Option-cases (find? (has_id m.id) s.rows)) [
  | inl new ↦
      let same = find?-append m.id s.rows (new_row now m d) info new (ground (arith, new, e)) in
      rw same (refl, refl)
  | inr (row, known) ↦
      let found =
        find?-update_where (is_listed m.id) (has_id m.id) (refreshed m d) s.rows (λ x. refl) in
      elim (Option-cases (find? (is_listed m.id) s.rows)) [
        | inl gone ↦ ground (arith, known, gone, found, e)
        | inr (old, listed) ↦
            let own = find?-holds (is_listed m.id) s.rows old listed in
            ground (arith, known, listed, found, own, e)
      ]
]
