-- ===== src/Lib.antt =====
-- Corto (README.md) keeps a tree of typed objects in memory, mapped onto other data sources by mounts.
-- This library models parts of its core: who may access an object (src/secure), the life, the names
-- and the functions of objects (src/store/object.c), the types that describe them (src/lang), and the
-- observers, the queues of mounts, and the routers that bind requests to methods (src/vstore).
--
-- How the parts meet in the program. A type's construction computes the layout of its values and its
-- table of methods; an object's declaration and definition call the handlers of its type, each found
-- by a signature; updates and definitions take the object's write lock, ask whether the object belongs
-- to the thread's source, and ask the security layer, which walks over the locks registered for the
-- object's path. The modules follow these parts; where one calls another that is not modelled with it,
-- the answer of the call is an argument or a field of a record (`World`, `Environment`, `Target`).
--
-- Base: native numbers, signed integers, lists, texts (lists of character codes), Boolean tests.
-- Secure.Authorize: `corto_authorize_id` and `corto_authorize` of src/secure/key.c, the default lock
--   method of src/secure/lock.c. Secure.Decision: the votes of the locks, how they rank, and how one
--   lock is weighed. Secure.Key: the active key of src/secure/key.c.
-- Object.Identifier: `corto_valid_identifier`. Object.Lookup: `corto_compareLookupIntern`.
--   Object.Sig: the `corto_sig_*` functions. Object.Overload: `corto_overloadParamCompare`,
--   `corto_sig_compareName`, `corto_lookup_functionFromSequence`. Object.Ownership: `corto_sourceof`,
--   `corto_source_match`. Object.Lifecycle: `corto_define`, `corto_owned`, the write lock, and in Update
--   `corto_update`, `corto_update_begin`, `corto_update_end`, `corto_update_cancel`. All of them are in
--   src/store/object.c.
-- Object.References: `corto_claim`, `corto_release`, `corto_scope_claim`. Object.Scopes:
--   `corto_adopt`, `corto_init_scope`, `corto_orphan`. Object.Declaration: `corto_declareChild_intern`.
--   Object.Path: `corto_fullpath`, `corto_lookup_intern`, `corto_lookup_function`,
--   `corto_resolve_intern` of src/store/object.c.
-- Values: `corto_ptr_compare` with src/store/compare_ser.c and the walk of src/store/walk.c; Values.Copy:
--   `corto_ptr_copy` with src/store/copy_ser.c. Values are trees typed by a description of their type.
-- Vstore.Router: src/vstore/route.c, router.c and routerimpl.c. Vstore.Mount: `corto_mount_post` and
--   `corto_mount_onPoll` of src/vstore/mount.c. Vstore.Subscriptions: `corto_mount_subscribeOrMount`
--   and `corto_mount_unsubscribeOrUnmount` there. Vstore.Observers: `corto_notify` of
--   src/vstore/observer.c.
-- Lang.Layout: the offsets and sizes of src/lang/interface.c, struct.c, union.c and type.c.
--   Lang.Primitive: src/lang/primitive.c. Lang.Delegates: src/lang/delegate.c. Lang.Vtable and
--   Lang.Methods: the tables of methods of src/lang/interface.c, their inheritance, and the ids of
--   methods. Lang.Classes: the interfaces of a class (src/lang/class.c) and
--   `corto_interface_pullDelegate`. Lang.Constants: the searches of src/lang/enum.c and
--   union.c. Lang.Collections: src/lang/collection.c.
--   Lang.Instances: `_corto_type_instanceof` of src/store/object.c.
-- Tests: runs and instances of the theorems on concrete inputs.
--
-- State is a record that an operation takes and returns together with its status; an error is a value
-- (`Status`, `Option`, `Outcome`); NULL is `none`. Loops are structural recursion on the text, the
-- list or the depth that they run over; only the loop of a lookup runs on fuel, one round more than
-- the path has characters, which is enough since every round takes a character or more off the path.
-- Fields of type `uint8_t` and `uint32_t` that can overflow have their wrap-around written out. An
-- object or a type that is only compared is its address, a number.
--
-- Not modelled: log messages and error texts; buffer sizes; other threads than the one that calls,
-- beyond the outcome of a mutex and the wait for another's declaration; the memory and the deletion
-- of objects; the other serializers and the conversions (src/store/string_ser.c, convert.c); the
-- subscribers and queries of the virtual store, and the other calls of a mount (src/vstore), which
-- appear as calls with an outcome; bootstrap; the generated bindings under c. The functions of the
-- base package (matching of paths, CORTO_ALIGN, the lock admin) and of the C library are arguments.
pub mod Base
pub mod Secure
pub mod Object
pub mod Lang
pub mod Values
pub mod Vstore
pub mod Tests
