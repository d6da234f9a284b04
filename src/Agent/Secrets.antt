-- ===== src/Agent/Secrets.antt =====
-- The file with the preshared key of a new peer.
use fredoomeaxima.Common.{
  ℕ, ◌≡◌, refl, ap, true, false, not, ◌&&◌, List, [], ◌∷◌, Option, none, some, arith, filter, any,
  Bool-cases, Option-cases, inl, inr,
}
use fredoomeaxima.Text.{Text, codes, text_eq}
use fredoomeaxima.Text.Laws.{text_eq_refl}
use fredoomeaxima.Exec.{Result, ok, err, pure, bind_keeps, ◌>>◌}
use fredoomeaxima.Exec.Steps.{lift_keeps}
use fredoomeaxima.Agent.{
  Node, Machine, TempFile, Command, Request, Response, Body, send, set_peer, save, exec_file,
  write_file, unlink, wg_add_peer, wg_remove_peer, wg_status, wg_restart, truthy, add_peer_case,
  or_empty, is_get, is_post, removal, last_cases, remove_case, dispatch, caught, authorized,
  respond, answer, handle,
}

abbrev HasFiles : List TempFile → Machine → Type 0
HasFiles fs m = m.files ≡ fs

exec_file-HasFiles :
    (node : Node) (c : Command) (fs : List TempFile) (m : Machine)
    → HasFiles fs m
    → HasFiles fs (exec_file node c m).1
unfolding exec_file
exec_file-HasFiles node c fs m h = h

one-HasFiles :
    (node : Node) (c : Command) (fs : List TempFile) (m : Machine)
    → HasFiles fs m
    → HasFiles fs ((exec_file node c >> pure tt) m).1
one-HasFiles node c fs m h =
    bind_keeps (HasFiles fs) (exec_file node c) (λ out. pure tt) m
      (exec_file-HasFiles node c fs m h) (λ out t k. k)

two-HasFiles :
    (node : Node) (c d : Command) (fs : List TempFile) (m : Machine)
    → HasFiles fs m
    → HasFiles fs ((exec_file node c >> (exec_file node d >> pure tt)) m).1
two-HasFiles node c d fs m h =
    bind_keeps (HasFiles fs) (exec_file node c) (λ out. exec_file node d >> pure tt) m
      (exec_file-HasFiles node c fs m h) (λ out t k. one-HasFiles node d fs t k)

filter_fresh :
    (path : Text) (fs : List TempFile)
    → any (λ f. text_eq f.path path) fs ≡ false
    → filter (λ f. not (text_eq f.path path)) fs ≡ fs
unfolding any filter
filter_fresh path [] h = refl
filter_fresh path (f ∷ fs) h = ground (arith, filter_fresh path fs)

filter_written :
    (path content : Text) (fs : List TempFile)
    → any (λ f. text_eq f.path path) fs ≡ false
    → filter (λ f. not (text_eq f.path path)) (record { path = path; content = content } ∷ fs) ≡ fs
unfolding filter
filter_written path content fs h = rw (text_eq_refl path) (filter_fresh path fs h)

module _ (node : Node) (obeys : node.unlinks ≡ true) (clean : node.leftover ≡ none) where
  abbrev IsFresh : List TempFile → Type 0
  IsFresh fs = any (λ f. text_eq f.path node.psk_path) fs ≡ false

  unlink_written :
      (content : Text) (fs : List TempFile) (m : Machine)
      → IsFresh fs
      → HasFiles (record { path = node.psk_path; content = content } ∷ fs) m
      → HasFiles fs (unlink node m)
  unfolding unlink
  unlink_written content fs m fresh h =
      rw obeys (rw h (filter_written node.psk_path content fs fresh))

  wg_add_peer-HasFiles :
      (public_key preshared_key : Text) (ips : List Text) (fs : List TempFile) (m : Machine)
      → IsFresh fs
      → HasFiles fs m
      → HasFiles fs (wg_add_peer node public_key preshared_key ips m).1
  unfolding wg_add_peer write_file
  wg_add_peer-HasFiles public_key preshared_key ips fs m fresh h =
      elim (Option-cases node.write_error) [
        | inl written ↦ rw written (
            unlink_written preshared_key fs _ fresh (
              two-HasFiles node (set_peer node public_key ips) (save node)
                (record { path = node.psk_path; content = preshared_key } ∷ fs)
                (record m {
                  files = record { path = node.psk_path; content = preshared_key } ∷ m.files;
                })
                (ap (λ gs. record { path = node.psk_path; content = preshared_key } ∷ gs) h)))
        | inr (e, unwritten) ↦ rw (unwritten, clean) h
      ]

  add_peer_case-HasFiles :
      (public_key preshared_key : Option Text) (ips : Option (List Text)) (fs : List TempFile)
      (m : Machine)
      → IsFresh fs
      → HasFiles fs m
      → HasFiles fs (add_peer_case node public_key preshared_key ips m).1
  unfolding add_peer_case
  add_peer_case-HasFiles (some pk) (some psk) (some ips) fs m fresh h =
      bind_keeps (HasFiles fs) (wg_add_peer node pk psk ips) (λ _. pure (send 201 Body.done)) m
        (wg_add_peer-HasFiles pk psk ips fs m fresh h) (λ a t k. k)
  add_peer_case-HasFiles none psk ips fs m fresh h = h
  add_peer_case-HasFiles (some pk) none ips fs m fresh h = h
  add_peer_case-HasFiles (some pk) (some psk) none fs m fresh h = h

  last_cases-HasFiles :
      (now : ℕ) (req : Request) (fs : List TempFile) (m : Machine)
      → HasFiles fs m
      → HasFiles fs (last_cases node now req m).1
  unfolding last_cases wg_restart wg_status
  last_cases-HasFiles now req fs m h =
      elim (Bool-cases (is_post req.method && text_eq req.path (codes "/restart"))) [
        | inl restart ↦ rw restart (
            bind_keeps (HasFiles fs) (wg_restart node) (λ _. pure (send 200 Body.done)) m
              (one-HasFiles node _ fs m h) (λ a t k. k))
        | inr other ↦
            rw other (elim (Bool-cases (is_get req.method && text_eq req.path (codes "/status"))) [
              | inl status ↦ rw status h
              | inr unknown ↦
                  rw unknown
                    (elim (Bool-cases
                      (is_get req.method && text_eq req.path (codes "/target-check"))) [
                        | inl check ↦ rw check h
                        | inr none_left ↦ rw none_left h
                      ])
            ])
      ]

  remove_case-HasFiles :
      (now : ℕ) (req : Request) (o : Option Text) (fs : List TempFile) (m : Machine)
      → HasFiles fs m
      → HasFiles fs (remove_case node now req o m).1
  unfolding remove_case wg_remove_peer
  remove_case-HasFiles now req none fs m h = last_cases-HasFiles now req fs m h
  remove_case-HasFiles now req (some encoded) fs m h =
      lift_keeps (HasFiles fs) (node.decode encoded) _ m h (λ public_key e.
        bind_keeps (HasFiles fs) (wg_remove_peer node public_key) (λ _. pure (send 200 Body.done)) m
          (two-HasFiles node _ (save node) fs m h) (λ a t k. k))

  dispatch-HasFiles :
      (now : ℕ) (req : Request) (fs : List TempFile) (m : Machine)
      → IsFresh fs
      → HasFiles fs m
      → HasFiles fs (dispatch node now req m).1
  unfolding dispatch
  dispatch-HasFiles now req fs m fresh h =
      elim (Bool-cases (is_post req.method && text_eq req.path (codes "/peers"))) [
        | inl adds ↦ rw adds (
            lift_keeps (HasFiles fs) req.body _ m h (λ text e.
              lift_keeps (HasFiles fs) (node.parse (or_empty text)) _ m h (λ body f.
                add_peer_case-HasFiles (truthy body.public_key) (truthy body.preshared_key)
                  body.allowed_ips fs m fresh h)))
        | inr other ↦ rw other (remove_case-HasFiles now req (removal req) fs m h)
      ]

  caught-HasFiles :
      (fs : List TempFile) (r : Result Response) (m : Machine)
      → HasFiles fs m
      → HasFiles fs (caught (r, m)).1
  unfolding caught
  caught-HasFiles fs (ok response) m h = h
  caught-HasFiles fs (err e) m h = h

  respond_keeps_files :
      (now : ℕ) (req : Request) (m : Machine)
      → any (λ f. text_eq f.path node.psk_path) m.files ≡ false
      → (respond node now req m).1.files ≡ m.files
  unfolding respond
  respond_keeps_files now req m fresh =
      elim (Bool-cases (is_get req.method && text_eq req.path (codes "/healthz"))) [
        | inl probe ↦ rw probe refl
        | inr asks ↦ elim (Bool-cases (authorized node req.authorization)) [
          | inl known ↦
              rw (asks, known)
                (caught-HasFiles m.files (dispatch node now req m).0 (dispatch node now req m).1
                  (dispatch-HasFiles now req m.files m fresh refl))
          | inr unknown ↦ rw (asks, unknown) refl
        ]
      ]

  answer_keeps_files :
      (now : ℕ) (req : Request) (path : Result Text) (m : Machine)
      → IsFresh m.files
      → (answer node now req path m).1.files ≡ m.files
  unfolding answer
  answer_keeps_files now req (ok path) m fresh =
      respond_keeps_files now (record req { path = path }) m fresh
  answer_keeps_files now req (err e) m fresh = refl

  -- Whatever the request, and whether the commands that it runs succeed or fail, no file with a
  -- preshared key is left behind, and no other temporary file is touched: the files after the
  -- request are those before it. The file system deletes what it is told to, a write of the key's file
  -- that fails has not created it, and the drawn name of that file was free.
  pub handle_keeps_files :
      (now : ℕ) (req : Request) (m : Machine)
      → any (λ f. text_eq f.path node.psk_path) m.files ≡ false
      → (handle node now req m).1.files ≡ m.files
  unfolding handle
  handle_keeps_files now req m fresh = answer_keeps_files now req (node.pathname req.path) m fresh
