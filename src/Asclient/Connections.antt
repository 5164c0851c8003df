-- ===== src/Asclient/Connections.antt =====
-- asclient/connections.go: the connected apps, read and signed out by their names.
pub mod Segments
use go_authbyte.Base.{
  ℕ, zero, suc, min, max, String, refl, sym, ap, subst, inl, inr, Bool, true, false, not, ◌||◌,
  Option, none, some, List, [], ◌∷◌, ◌++◌, map, append-nil, append_assoc, arith, ltb, leb, nat_eq,
  if◌then◌else◌, ltb→lt, lt→ltb, leb→le, le→leb, nat_eq_iff, Bool-cases, Option-cases, length, take,
  drop, get_elem?, replicate, all, any, length-append, take-append-drop, All, All-append,
  Comparable, ==_iff, ==_refl, Bytes, codes, bytes_eq, bytes_eq_iff, ℕ_comparable, Bytes_comparable,
  Result, ok, err, bind-ok, ok_or, ok_inj, reverse, reverse_aux,
}
use go_authbyte.Base.Texts.{is_empty, is_in, has_byte}
use go_authbyte.IdentityCode.Chars.{trim_space}
use go_authbyte.Authclient.Calls.{Resource}
use go_authbyte.Asclient.{
  Client, Libraries, CallError, nothing_named, bad_json, Wire, Ask, dpop_do, expecting, expect,
  decoded, done,
}

-- A byte by which a path would be read as more than a segment.
abbrev pub is_separator : ℕ → Bool
is_separator c = any (nat_eq c) (codes "/\\?#%")

-- A name as one segment of a path.
unfoldable pub segment : Libraries → Bytes → Option Bytes
unfolding trim_space
segment l name =
    if is_empty (trim_space name)
      || (is_in (codes "." ∷ codes ".." ∷ []) name || any is_separator name)
    then none
    else some (l.path_escape name)

abbrev pub ask : Bytes → Bytes → Bytes → Ask
ask method path access_token = record {
  method = method;
  path = path;
  access_token = access_token;
  content_type = [];
  body = none;
}

module _ {T : Type 0} (w : Resource T) (l : Libraries) (c : Client) where
  module _ {V : Type 0} (decode : Bytes → Option V) where
    unfoldable pub connections_read : Wire T → Bytes → Bytes → Wire T × Result CallError V
    unfolding trim_space dpop_do
    connections_read x access_token path =
        if is_empty (trim_space access_token)
        then (x, err nothing_named)
        else decoded w l c decode
            (expect w l c 200 (dpop_do w l c x (ask (codes "GET") path access_token)))

    unfoldable pub own_connections : Wire T → Bytes → Wire T × Result CallError V
    unfolding connections_read
    own_connections x access_token = connections_read x access_token (codes "/identity/connections")

    unfoldable pub assistant_connections : Wire T → Bytes → Bytes → Wire T × Result CallError V
    unfolding connections_read segment
    assistant_connections x access_token assistant = elim (segment l assistant) [
      | none ↦ (x, err nothing_named)
      | some seg ↦
          connections_read x access_token
            (codes "/identity/assistants/" ++ (seg ++ codes "/connections"))
    ]

  unfoldable pub connections_end : Wire T → Bytes → Bytes → Wire T × Option CallError
  unfolding trim_space dpop_do
  connections_end x access_token path =
      if is_empty (trim_space access_token)
      then (x, some nothing_named)
      else done w l c (expect w l c 204 (dpop_do w l c x (ask (codes "DELETE") path access_token)))

  -- A call on what segments name, or none where a name is no segment.
  abbrev pub end_at : Wire T → Bytes → Option Bytes → Wire T × Option CallError
  end_at x access_token none = (x, some nothing_named)
  end_at x access_token (some path) = connections_end x access_token path

  abbrev pub connection_path : Option Bytes → Option Bytes
  connection_path none = none
  connection_path (some seg) = some (codes "/identity/connections/" ++ seg)

  unfoldable pub sign_out_own_connection : Wire T → Bytes → Bytes → Wire T × Option CallError
  unfolding connections_end segment
  sign_out_own_connection x access_token id = end_at x access_token (connection_path (segment l id))

  abbrev pub assistant_path : Option Bytes → Option Bytes → Option Bytes
  assistant_path none seg = none
  assistant_path (some a) none = none
  assistant_path (some a) (some seg) =
      some (codes "/identity/assistants/" ++ (a ++ (codes "/connections/" ++ seg)))

  unfoldable pub sign_out_assistant_connection :
      Wire T → Bytes → Bytes → Bytes → Wire T × Option CallError
  unfolding connections_end segment
  sign_out_assistant_connection x access_token assistant id =
      end_at x access_token (assistant_path (segment l assistant) (segment l id))

  abbrev pub all_path : Option Bytes → Option Bytes
  all_path none = none
  all_path (some a) = some (codes "/identity/assistants/" ++ (a ++ codes "/connections"))

  unfoldable pub end_assistant_connections : Wire T → Bytes → Bytes → Wire T × Option CallError
  unfolding connections_end segment
  end_assistant_connections x access_token assistant =
      end_at x access_token (all_path (segment l assistant))
