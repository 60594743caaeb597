-- ===== src/Value/Json/Order.antt =====
-- Objects and JSON maps in key order: what appending an entry does, and the order of the keys.
use Prim.Native.String.{compare}
use text.Mathlib.Text.{is_lt}
use toasty_driver_surreal.Prelude.{String, Bool, true, ◌≡◌, refl, ap}
use toasty_driver_surreal.Value.{SurValue, Object, JsonValue, JsonMembers}

-- `<` of `String`
abbrev pub text_lt : String → String → Bool
text_lt a b = is_lt (compare a b)

-- every key of the object is before `k`
abbrev pub KeysBelow : Object → String → Type 0
KeysBelow Object.end k = Unit
KeysBelow (Object.entry n v o) k = (text_lt n k ≡ true) × KeysBelow o k

abbrev pub NamesBelow : JsonMembers → String → Type 0
NamesBelow JsonMembers.end k = Unit
NamesBelow (JsonMembers.member n v m) k = (text_lt n k ≡ true) × NamesBelow m k

abbrev pub put_last : Object → String → SurValue → Object
put_last Object.end k v = Object.entry k v Object.end
put_last (Object.entry n w o) k v = Object.entry n w (put_last o k v)

abbrev pub member_last : JsonMembers → String → JsonValue → JsonMembers
member_last JsonMembers.end k v = JsonMembers.member k v JsonMembers.end
member_last (JsonMembers.member n w m) k v = JsonMembers.member n w (member_last m k v)

abbrev pub append : Object → Object → Object
append Object.end p = p
append (Object.entry n v o) p = Object.entry n v (append o p)

abbrev pub join_members : JsonMembers → JsonMembers → JsonMembers
join_members JsonMembers.end p = p
join_members (JsonMembers.member n v m) p = JsonMembers.member n v (join_members m p)

pub append-put_last :
    (o p : Object) (k : String) (v : SurValue)
    → append (put_last o k v) p ≡ append o (Object.entry k v p)
append-put_last Object.end p k v = refl
append-put_last (Object.entry n w o) p k v = ap (Object.entry n w) (append-put_last o p k v)

pub join_members-member_last :
    (o p : JsonMembers) (k : String) (v : JsonValue)
    → join_members (member_last o k v) p ≡ join_members o (JsonMembers.member k v p)
join_members-member_last JsonMembers.end p k v = refl
join_members-member_last (JsonMembers.member n w o) p k v =
    ap (JsonMembers.member n w) (join_members-member_last o p k v)

pub KeysBelow-put_last :
    (o : Object) (k j : String) (v : SurValue)
    → KeysBelow o j
    → text_lt k j ≡ true
    → KeysBelow (put_last o k v) j
KeysBelow-put_last Object.end k j v b l = (l, tt)
KeysBelow-put_last (Object.entry n w o) k j v b l = (b.0, KeysBelow-put_last o k j v b.1 l)

pub NamesBelow-member_last :
    (o : JsonMembers) (k j : String) (v : JsonValue)
    → NamesBelow o j
    → text_lt k j ≡ true
    → NamesBelow (member_last o k v) j
NamesBelow-member_last JsonMembers.end k j v b l = (l, tt)
NamesBelow-member_last (JsonMembers.member n w o) k j v b l =
    (b.0, NamesBelow-member_last o k j v b.1 l)

-- every key of `m` is behind the keys of `out`
abbrev pub Behind : JsonMembers → Object → Type 0
Behind JsonMembers.end out = Unit
Behind (JsonMembers.member n v m) out = KeysBelow out n × Behind m out

abbrev pub MembersBehind : JsonMembers → JsonMembers → Type 0
MembersBehind JsonMembers.end out = Unit
MembersBehind (JsonMembers.member n v m) out = NamesBelow out n × MembersBehind m out

-- every name of `m` is behind `k`
abbrev pub After : String → JsonMembers → Type 0
After k JsonMembers.end = Unit
After k (JsonMembers.member n v m) = (text_lt k n ≡ true) × After k m

pub Behind-put_last :
    (m : JsonMembers) (out : Object) (k : String) (v : SurValue)
    → Behind m out
    → After k m
    → Behind m (put_last out k v)
Behind-put_last JsonMembers.end out k v b a = tt
Behind-put_last (JsonMembers.member n w m) out k v b a =
    (KeysBelow-put_last out k n v b.0 a.0, Behind-put_last m out k v b.1 a.1)

pub MembersBehind-member_last :
    (m out : JsonMembers) (k : String) (v : JsonValue)
    → MembersBehind m out
    → After k m
    → MembersBehind m (member_last out k v)
MembersBehind-member_last JsonMembers.end out k v b a = tt
MembersBehind-member_last (JsonMembers.member n w m) out k v b a =
    (NamesBelow-member_last out k n v b.0 a.0, MembersBehind-member_last m out k v b.1 a.1)

pub Behind-end : (m : JsonMembers) → Behind m Object.end
Behind-end JsonMembers.end = tt
Behind-end (JsonMembers.member n v m) = (tt, Behind-end m)

pub MembersBehind-end : (m : JsonMembers) → MembersBehind m JsonMembers.end
MembersBehind-end JsonMembers.end = tt
MembersBehind-end (JsonMembers.member n v m) = (tt, MembersBehind-end m)

pub append-end : (o : Object) → append o Object.end ≡ o
append-end Object.end = refl
append-end (Object.entry n v o) = ap (Object.entry n v) (append-end o)

pub join_members-end : (m : JsonMembers) → join_members m JsonMembers.end ≡ m
join_members-end JsonMembers.end = refl
join_members-end (JsonMembers.member n v m) = ap (JsonMembers.member n v) (join_members-end m)
