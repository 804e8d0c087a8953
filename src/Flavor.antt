-- ===== src/Flavor.antt =====
-- `enum cil_flavor` (src/cil_flavor.h): what a node or a list item holds. A flavor is its number, and
-- the enumerators that the modelled code tests have their names here.
pub mod Index
use cil.Base.{ℕ}

abbrev pub Flavor : Type 0
Flavor = ℕ

abbrev pub cil_none : Flavor
cil_none = 0

abbrev pub cil_root : Flavor
cil_root = 1

abbrev pub cil_node : Flavor
cil_node = 2

abbrev pub cil_string : Flavor
cil_string = 3

abbrev pub cil_datum : Flavor
cil_datum = 4

abbrev pub cil_list : Flavor
cil_list = 5

abbrev pub cil_list_item : Flavor
cil_list_item = 6

abbrev pub cil_blockinherit : Flavor
cil_blockinherit = 9

abbrev pub cil_call : Flavor
cil_call = 12

abbrev pub cil_constrain : Flavor
cil_constrain = 50

abbrev pub cil_mlsconstrain : Flavor
cil_mlsconstrain = 51

abbrev pub cil_validatetrans : Flavor
cil_validatetrans = 52

abbrev pub cil_mlsvalidatetrans : Flavor
cil_mlsvalidatetrans = 53

abbrev pub cil_op : Flavor
cil_op = 1000

abbrev pub cil_all : Flavor
cil_all = 1001

abbrev pub cil_and : Flavor
cil_and = 1002

abbrev pub cil_or : Flavor
cil_or = 1003

abbrev pub cil_xor : Flavor
cil_xor = 1004

abbrev pub cil_not : Flavor
cil_not = 1005

abbrev pub cil_eq : Flavor
cil_eq = 1006

abbrev pub cil_neq : Flavor
cil_neq = 1007

abbrev pub cil_range : Flavor
cil_range = 1008

abbrev pub cil_cons_dom : Flavor
cil_cons_dom = 1009

abbrev pub cil_cons_domby : Flavor
cil_cons_domby = 1010

abbrev pub cil_cons_incomp : Flavor
cil_cons_incomp = 1011

abbrev pub cil_cons_operand : Flavor
cil_cons_operand = 1012

abbrev pub cil_cons_u1 : Flavor
cil_cons_u1 = 1013

abbrev pub cil_cons_u2 : Flavor
cil_cons_u2 = 1014

abbrev pub cil_cons_u3 : Flavor
cil_cons_u3 = 1015

abbrev pub cil_cons_t1 : Flavor
cil_cons_t1 = 1016

abbrev pub cil_cons_t2 : Flavor
cil_cons_t2 = 1017

abbrev pub cil_cons_t3 : Flavor
cil_cons_t3 = 1018

abbrev pub cil_cons_r1 : Flavor
cil_cons_r1 = 1019

abbrev pub cil_cons_r2 : Flavor
cil_cons_r2 = 1020

abbrev pub cil_cons_r3 : Flavor
cil_cons_r3 = 1021

abbrev pub cil_cons_l1 : Flavor
cil_cons_l1 = 1022

abbrev pub cil_cons_l2 : Flavor
cil_cons_l2 = 1023

abbrev pub cil_cons_h1 : Flavor
cil_cons_h1 = 1024

abbrev pub cil_cons_h2 : Flavor
cil_cons_h2 = 1025

abbrev pub cil_block : Flavor
cil_block = 2000

abbrev pub cil_macro : Flavor
cil_macro = 2001

abbrev pub cil_bool : Flavor
cil_bool = 2003

abbrev pub cil_tunable : Flavor
cil_tunable = 2004

abbrev pub cil_class : Flavor
cil_class = 2008

abbrev pub cil_user : Flavor
cil_user = 2011

abbrev pub cil_role : Flavor
cil_role = 2012

abbrev pub cil_type : Flavor
cil_type = 2014

abbrev pub cil_sens : Flavor
cil_sens = 2017

abbrev pub cil_cat : Flavor
cil_cat = 2019

abbrev pub cil_catset : Flavor
cil_catset = 2020

abbrev pub cil_level : Flavor
cil_level = 2022

abbrev pub cil_sid : Flavor
cil_sid = 2024

abbrev pub cil_in : Flavor
cil_in = 11

abbrev pub cil_optional : Flavor
cil_optional = 2002

abbrev pub cil_perm : Flavor
cil_perm = 2005

abbrev pub cil_map_perm : Flavor
cil_map_perm = 2006

abbrev pub cil_common : Flavor
cil_common = 2007

abbrev pub cil_map_class : Flavor
cil_map_class = 2009

abbrev pub cil_classpermission : Flavor
cil_classpermission = 2010

abbrev pub cil_roleattribute : Flavor
cil_roleattribute = 2013

abbrev pub cil_typeattribute : Flavor
cil_typeattribute = 2015

abbrev pub cil_typealias : Flavor
cil_typealias = 2016

abbrev pub cil_sensalias : Flavor
cil_sensalias = 2018

abbrev pub cil_catalias : Flavor
cil_catalias = 2021

abbrev pub cil_levelrange : Flavor
cil_levelrange = 2023

abbrev pub cil_name : Flavor
cil_name = 2025

abbrev pub cil_context : Flavor
cil_context = 2026

abbrev pub cil_ipaddr : Flavor
cil_ipaddr = 2027

abbrev pub cil_policycap : Flavor
cil_policycap = 2028

abbrev pub cil_typepermissive : Flavor
cil_typepermissive = 37

abbrev pub cil_blockabstract : Flavor
cil_blockabstract = 10

abbrev pub cil_condblock : Flavor
cil_condblock = 15

abbrev pub cil_booleanif : Flavor
cil_booleanif = 13

abbrev pub cil_tunableif : Flavor
cil_tunableif = 14

abbrev pub cil_classorder : Flavor
cil_classorder = 18

abbrev pub cil_classcommon : Flavor
cil_classcommon = 19

abbrev pub cil_classmapping : Flavor
cil_classmapping = 20

abbrev pub cil_classpermissionset : Flavor
cil_classpermissionset = 23

abbrev pub cil_userprefix : Flavor
cil_userprefix = 24

abbrev pub cil_userrole : Flavor
cil_userrole = 25

abbrev pub cil_userlevel : Flavor
cil_userlevel = 26

abbrev pub cil_userrange : Flavor
cil_userrange = 27

abbrev pub cil_userbounds : Flavor
cil_userbounds = 28

abbrev pub cil_selinuxuser : Flavor
cil_selinuxuser = 29

abbrev pub cil_selinuxuserdefault : Flavor
cil_selinuxuserdefault = 30

abbrev pub cil_roleattributeset : Flavor
cil_roleattributeset = 31

abbrev pub cil_roletype : Flavor
cil_roletype = 32

abbrev pub cil_rolebounds : Flavor
cil_rolebounds = 33

abbrev pub cil_typeattributeset : Flavor
cil_typeattributeset = 34

abbrev pub cil_typealiasactual : Flavor
cil_typealiasactual = 35

abbrev pub cil_typebounds : Flavor
cil_typebounds = 36

abbrev pub cil_roletransition : Flavor
cil_roletransition = 46

abbrev pub cil_roleallow : Flavor
cil_roleallow = 44

abbrev pub cil_avrule : Flavor
cil_avrule = 45

abbrev pub cil_type_rule : Flavor
cil_type_rule = 47

abbrev pub cil_nametypetransition : Flavor
cil_nametypetransition = 48

abbrev pub cil_rangetransition : Flavor
cil_rangetransition = 49

abbrev pub cil_senscat : Flavor
cil_senscat = 40

abbrev pub cil_catorder : Flavor
cil_catorder = 42

abbrev pub cil_sensitivityorder : Flavor
cil_sensitivityorder = 39

abbrev pub cil_sidorder : Flavor
cil_sidorder = 43

abbrev pub cil_sidcontext : Flavor
cil_sidcontext = 54

abbrev pub cil_mls : Flavor
cil_mls = 70

abbrev pub cil_handleunknown : Flavor
cil_handleunknown = 69

abbrev pub cil_defaultrange : Flavor
cil_defaultrange = 68

abbrev pub cil_defaultuser : Flavor
cil_defaultuser = 65

abbrev pub cil_defaultrole : Flavor
cil_defaultrole = 66

abbrev pub cil_defaulttype : Flavor
cil_defaulttype = 67

abbrev pub cil_sensaliasactual : Flavor
cil_sensaliasactual = 38

abbrev pub cil_cataliasactual : Flavor
cil_cataliasactual = 41

abbrev pub cil_condtrue : Flavor
cil_condtrue = 16

abbrev pub cil_condfalse : Flavor
cil_condfalse = 17

abbrev pub cil_filecon : Flavor
cil_filecon = 56

abbrev pub cil_portcon : Flavor
cil_portcon = 57

abbrev pub cil_genfscon : Flavor
cil_genfscon = 59

abbrev pub cil_netifcon : Flavor
cil_netifcon = 60

abbrev pub cil_pirqcon : Flavor
cil_pirqcon = 61

abbrev pub cil_iomemcon : Flavor
cil_iomemcon = 62

abbrev pub cil_ioportcon : Flavor
cil_ioportcon = 63

abbrev pub cil_pcidevicecon : Flavor
cil_pcidevicecon = 64

abbrev pub cil_fsuse : Flavor
cil_fsuse = 55
