-- ===== src/Settings/Durable.antt =====
-- What a new process loads of the settings that an older one has saved, in whatever state they were.
use kdeconnect_nx.Prelude.{
  ℕ, ◌<◌, Text, bytes, Bool, true, false, none, some, ◌≡◌, refl, sym, ap, ◌∙◌, subst, arith, length,
  eq_text, is_empty, lookup, insert, lookup-insert, eq_text_refl,
}
use kdeconnect_nx.Prelude.Int.{ℤ, pos, IsInt32}
use kdeconnect_nx.Json.Yyjson.{Yyjson}
use kdeconnect_nx.Json.Body
use kdeconnect_nx.Json.Body.{JsonBody, field, upsert}
use kdeconnect_nx.Json.Fields.{
  IsObject, empty-IsObject, upsert-IsObject, field-upsert_self, field-upsert_ne,
}
use kdeconnect_nx.Json.Iterate.{over_bools, over_ints, each_bool, each_int}
use kdeconnect_nx.Json.Setters.{set_obj}
use kdeconnect_nx.Json.Written.{Writes, dump_lem, parse_written}
use kdeconnect_nx.Storage.{Disk, read_file, write_file}
use kdeconnect_nx.Settings.{
  bool_settings, int_settings, Store, overwrite, Settings, get_bool_key, get_int_key, no_settings,
  seeded, load, put_bools, put_ints, settings_body, save,
}
use kdeconnect_nx.Settings.Tables.{apply_defaults-get}
use kdeconnect_nx.Settings.Saved.{found_or, put-IsObject}
use kdeconnect_nx.Settings.Restart.{
  put_bools-put, put_ints-put, bools_again, ints_again, get_elem-held, get_found,
}

other_name : eq_text (bytes "int") (bytes "bool") ≡ false
unfolding eq_text bytes
other_name = refl

module _ (y : Yyjson) where
  -- The two objects of the file.
  saved_body :
      (s : Settings)
      → (bools : y.Val) × (ints : y.Val) × (put_bools y bool_settings 0 s.g_bool (Body.empty y)
          ≡ some bools)
        × (put_ints y int_settings 0 s.g_int (Body.empty y) ≡ some ints)
        × (y.is_obj bools ≡ true)
        × (y.is_obj ints ≡ true)
        × (settings_body y s
            ≡ upsert y (upsert y (Body.empty y) (bytes "bool") bools) (bytes "int") ints)
  unfolding settings_body set_obj
  saved_body s =
      let b = put_bools y bool_settings 0 s.g_bool (Body.empty y) in
      let i = put_ints y int_settings 0 s.g_int (Body.empty y) in
      let b_obj : IsObject y b =
        subst (IsObject y) (sym (put_bools-put y bool_settings 0 s.g_bool (Body.empty y)))
          (put-IsObject y y.mut_bool bool_settings 0 s.g_bool (Body.empty y) (empty-IsObject y)) in
      let i_obj : IsObject y i =
        subst (IsObject y) (sym (put_ints-put y int_settings 0 s.g_int (Body.empty y)))
          (put-IsObject y y.mut_int int_settings 0 s.g_int (Body.empty y) (empty-IsObject y)) in
      let (o, e, o_obj) = object_of b b_obj in
      let (n, f, n_obj) = object_of i i_obj in (o, n, e, f, o_obj, n_obj, rw (e, f) refl)
    where
      object_of : (b : JsonBody y) → IsObject y b → (o : y.Val) × (b ≡ some o) × (y.is_obj o ≡ true)
      object_of none h = absurd h
      object_of (some o) h = (o, refl, h)

  each_bool-field :
      (b : JsonBody y) (k : Text) (o : y.Val) (fn : Store Bool → Text → Bool → Store Bool)
      (g : Store Bool)
      → field y b k ≡ some o
      → y.is_obj o ≡ true
      → each_bool y b k fn g ≡ over_bools y fn g (y.members o)
  unfolding each_bool
  each_bool-field b k o fn g e h = rw (e, h) refl

  each_int-field :
      (b : JsonBody y) (k : Text) (o : y.Val) (fn : Store ℤ → Text → ℤ → Store ℤ) (g : Store ℤ)
      → field y b k ≡ some o
      → y.is_obj o ≡ true
      → each_int y b k fn g ≡ over_ints y fn g (y.members o)
  unfolding each_int
  each_int-field b k o fn g e h = rw (e, h) refl

  module _ (path : Text) where
    save_lem :
        (s : Settings) (d : Disk) (text : Text)
        → d.can_write path ≡ true
        → Writes y true (settings_body y s) text
        → save y path s d ≡ record d { files = insert path text d.files }
    unfolding save write_file
    save_lem s d text writable w =
        rw (save, dump_lem y true (settings_body y s) text w, write_file, writable) refl

    read_lem :
        (d : Disk) (text : Text)
        → is_empty text ≡ false
        → read_file (record d { files = insert path text d.files }) path ≡ text
    unfolding read_file
    read_lem d text something =
        let there : lookup path (insert path text d.files) ≡ some text =
          lookup-insert path path text d.files ∙ rw (eq_text_refl path) refl in
        rw (there, something) refl

    load_lem :
        (d : Disk) (text : Text) (b : JsonBody y)
        → read_file d path ≡ text
        → is_empty text ≡ false
        → Body.parse y text ≡ b
        → load y path d no_settings ≡ record {
          g_bool =
              each_bool y b (bytes "bool") (overwrite bool_settings) (seeded no_settings).g_bool;
          g_int = each_int y b (bytes "int") (overwrite int_settings) (seeded no_settings).g_int;
        }
    unfolding load
    load_lem d text b contents something parsed = rw (contents, something, parsed) refl

    -- The two maps after a restart, over the objects that were saved.
    restarted :
        (s : Settings) (d : Disk) (text : Text)
        → d.can_write path ≡ true
        → Writes y true (settings_body y s) text
        → let saved = saved_body s in
          load y path (save y path s d) no_settings ≡ record {
            g_bool =
                over_bools y
                  (overwrite bool_settings)
                  (seeded no_settings).g_bool
                  (y.members saved.0);
            g_int =
                over_ints y (overwrite int_settings) (seeded no_settings).g_int (y.members saved.1);
          }
    restarted s d text writable w =
        let (o, n, made_o, made_n, o_obj, n_obj, body) = saved_body s in
        let inner = upsert y (Body.empty y) (bytes "bool") o in
        let inner_obj = upsert-IsObject y (Body.empty y) (bytes "bool") o (empty-IsObject y) in
        let body_obj : IsObject y (settings_body y s) =
          subst (IsObject y) (sym body) (upsert-IsObject y inner (bytes "int") n inner_obj) in
        let parsed = parse_written y true (settings_body y s) text body_obj w in
        let ints_there = field-upsert_self y inner (bytes "int") n inner_obj in
        let bools_there =
          field-upsert_ne y inner (bytes "int") (bytes "bool") n inner_obj other_name
            (field-upsert_self y (Body.empty y) (bytes "bool") o (empty-IsObject y)) in
        rw (save_lem s d text writable w) (
          load_lem (record d { files = insert path text d.files }) text
            (upsert y inner (bytes "int") n) (read_lem d text parsed.0) parsed.0 (parsed.1 ∙ body)
          ∙ rw
              (
                each_bool-field (upsert y inner (bytes "int") n) (bytes "bool") o
                    (overwrite bool_settings) (seeded no_settings).g_bool bools_there o_obj,
                each_int-field (upsert y inner (bytes "int") n) (bytes "int") n
                    (overwrite int_settings) (seeded no_settings).g_int ints_there n_obj,
              )
              refl)

    pub bools-load :
        (s : Settings) (d : Disk) (text : Text) (k : ℕ)
        → d.can_write path ≡ true
        → Writes y true (settings_body y s) text
        → k < length bool_settings
        → get_bool_key k (load y path (save y path s d) no_settings) ≡ get_bool_key k s
    unfolding get_bool_key seeded
    bools-load s d text k writable w bool_key =
        let saved = saved_body s in
        let e = get_elem-held bool_settings k bool_key in
        let seed = apply_defaults-get bool_settings 0 k k (λ j. none) e.0 (omega arith) refl e.1 in
        get_found bool_settings false k s.g_bool (load y path (save y path s d) no_settings).g_bool
          e.0 e.1
          (ap (λ r. r.g_bool k) (restarted s d text writable w)
            ∙ bools_again y s.g_bool (seeded no_settings).g_bool k saved.0 saved.2 bool_key
            ∙ ap (found_or (s.g_bool k)) seed)

    pub ints-load :
        (s : Settings) (d : Disk) (text : Text) (i : ℕ)
        → d.can_write path ≡ true
        → Writes y true (settings_body y s) text
        → ((v : ℤ) → s.g_int i ≡ some v → IsInt32 v)
        → i < length int_settings
        → get_int_key i (load y path (save y path s d) no_settings) ≡ get_int_key i s
    unfolding get_int_key seeded
    ints-load s d text i writable w fits int_key =
        let saved = saved_body s in
        let e = get_elem-held int_settings i int_key in
        let seed = apply_defaults-get int_settings 0 i i (λ j. none) e.0 (omega arith) refl e.1 in
        get_found int_settings (pos 0) i s.g_int (load y path (save y path s d) no_settings).g_int
          e.0 e.1
          (ap (λ r. r.g_int i) (restarted s d text writable w)
            ∙ ints_again y s.g_int (seeded no_settings).g_int i saved.1 saved.3 fits int_key
            ∙ ap (found_or (s.g_int i)) seed)
