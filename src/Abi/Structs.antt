-- ===== src/Abi/Structs.antt =====
-- The tables of abi.py: the structures of the plug-in interface. `Files` has those of the file system.
pub mod Files
use mathlib.Core.List.{List, [], ◌∷◌}
use Prim.Native.String.{String}
use cwhost.Abi.{
  u8, u16, s16, u32, s32, u64, s64, ptr, ostype, boolean, s8, mac68k, power, scalar, array, nested,
  FieldType, Fields, end, field, Struct, struct,
}

-- the list of fields as Struct.__init__ is given it
abbrev pub fields : List (String × FieldType) → Fields
fields [] = end
fields ((name, t) ∷ rest) = field name t (fields rest)

abbrev pub fs_ref : Struct
fs_ref = struct "FSRef" power (fields (("hidden", array u8 80) ∷ []))

abbrev pub hfs_uni_str255 : Struct
hfs_uni_str255 =
    struct "HFSUniStr255" power (fields (("length", scalar u16) ∷ ("unicode", array u16 255) ∷ []))

abbrev pub fs_spec : Struct
fs_spec =
    struct "FSSpec" mac68k
      (fields (("vRefNum", scalar s16) ∷ ("parID", scalar s32) ∷ ("name", array u8 64) ∷ []))

abbrev pub cw_file_spec : Struct
cw_file_spec =
    struct "CWFileSpec" mac68k
      (fields (("parentDirRef", nested fs_ref) ∷ ("filename", nested hfs_uni_str255) ∷ []))

abbrev pub cw_file_info : Struct
cw_file_info = struct "CWFileInfo" mac68k (
    fields (
      ("fullsearch", scalar boolean)
      ∷ ("dependencyType", scalar s8)
      ∷ ("isdependentoffile", scalar s32)
      ∷ ("suppressload", scalar boolean)
      ∷ ("padding", scalar boolean)
      ∷ ("filedata", scalar ptr)
      ∷ ("filedatalength", scalar s32)
      ∷ ("filedatatype", scalar s16)
      ∷ ("fileID", scalar s16)
      ∷ ("filespec", nested cw_file_spec)
      ∷ ("alreadyincluded", scalar boolean)
      ∷ ("recordbrowseinfo", scalar boolean)
      ∷ []))

abbrev pub cw_message_ref : Struct
cw_message_ref = struct "CWMessageRef" mac68k (
    fields (
      ("sourcefile", nested cw_file_spec)
      ∷ ("linenumber", scalar s32)
      ∷ ("tokenoffset", scalar s16)
      ∷ ("tokenlength", scalar s16)
      ∷ ("selectionoffset", scalar s32)
      ∷ ("selectionlength", scalar s32)
      ∷ []))

abbrev pub cw_new_text_document_info : Struct
cw_new_text_document_info = struct "CWNewTextDocumentInfo" mac68k (
    fields
      (("documentname", scalar ptr) ∷ ("text", scalar ptr) ∷ ("markDirty", scalar boolean) ∷ []))

abbrev pub cw_browse_options : Struct
cw_browse_options = struct "CWBrowseOptions" mac68k (
    fields (
      ("recordClasses", scalar boolean)
      ∷ ("recordEnums", scalar boolean)
      ∷ ("recordMacros", scalar boolean)
      ∷ ("recordTypedefs", scalar boolean)
      ∷ ("recordConstants", scalar boolean)
      ∷ ("recordTemplates", scalar boolean)
      ∷ ("recordUndefinedFunctions", scalar boolean)
      ∷ ("reserved1", scalar s32)
      ∷ ("reserved2", scalar s32)
      ∷ []))

abbrev pub cw_dependency_info : Struct
cw_dependency_info = struct "CWDependencyInfo" mac68k (
    fields (
      ("fileIndex", scalar s32)
      ∷ ("fileSpec", nested cw_file_spec)
      ∷ ("fileSpecAccessType", scalar s16)
      ∷ ("dependencyType", scalar s16)
      ∷ []))

abbrev pub cw_object_data : Struct
cw_object_data = struct "CWObjectData" mac68k (
    fields (
      ("objectdata", scalar ptr)
      ∷ ("browsedata", scalar ptr)
      ∷ ("reserved1", scalar s32)
      ∷ ("codesize", scalar s32)
      ∷ ("udatasize", scalar s32)
      ∷ ("idatasize", scalar s32)
      ∷ ("compiledlines", scalar s32)
      ∷ ("interfaceChanged", scalar boolean)
      ∷ ("reserved2", scalar s32)
      ∷ ("compilecontext", scalar ptr)
      ∷ ("dependencies", scalar ptr)
      ∷ ("dependencyCount", scalar s16)
      ∷ ("objectfile", scalar ptr)
      ∷ []))

abbrev pub cw_target_info : Struct
cw_target_info = struct "CWTargetInfo" mac68k (
    fields (
      ("outputType", scalar s16)
      ∷ ("outfile", nested cw_file_spec)
      ∷ ("symfile", nested cw_file_spec)
      ∷ ("runfile", nested cw_file_spec)
      ∷ ("linkType", scalar s16)
      ∷ ("canRun", scalar boolean)
      ∷ ("canDebug", scalar boolean)
      ∷ ("targetCPU", scalar ostype)
      ∷ ("targetOS", scalar ostype)
      ∷ ("outfileCreator", scalar ostype)
      ∷ ("outfileType", scalar ostype)
      ∷ ("debuggerCreator", scalar ostype)
      ∷ ("runHelperCreator", scalar ostype)
      ∷ ("linkAgainstFile", nested cw_file_spec)
      ∷ []))

abbrev pub drop_in_flags : Struct
drop_in_flags = struct "DropInFlags" mac68k (
    fields (
      ("rsrcversion", scalar s16)
      ∷ ("dropintype", scalar ostype)
      ∷ ("earliestCompatibleAPIVersion", scalar u16)
      ∷ ("dropinflags", scalar u32)
      ∷ ("edit_language", scalar ostype)
      ∷ ("newestAPIVersion", scalar u16)
      ∷ []))
